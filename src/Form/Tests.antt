-- ===== src/Form/Tests.antt =====
-- jquery.form.js at concrete forms.
use joshlong_examples.Common.{
  ◌≤◌, inr, ◌≡◌, ◌++◌, refl, arith, true, false, map, none, some, List, [], ◌∷◌, if◌then◌else◌,
  get_or, replicate, All, Text, codes, text_eq, plain_jquery as jq,
}
use joshlong_examples.Form.Click.{Click, submit_element, click, clear_click}
use joshlong_examples.Form.Clicked.{element_pairs-click}
use joshlong_examples.Form.Fields.{
  text, checkbox, image, submit, other_tag, hidden, select_one, select_multiple, input, select,
  button_tag, OptionElement, Element, Form, Pair, is_image, is_tick, is_select_one, is_select,
  is_skipped, is_idle, is_press, is_clicked, option_value, select_loop, select_value, field_value,
  add_value, field_values, text_pair, value_pairs, image_pairs, element_pairs, collect, click_pairs,
  form_to_array, field_pairs,
}
use joshlong_examples.Form.Successful.{IsSuccessful}
use joshlong_examples.Form.Values.{texts, FromField, form_to_array-FromField}
use joshlong_examples.Form.Edits.{is_line, is_textarea, set_selected, clear_field}
use joshlong_examples.Form.Cleared.{field_value-clear_field}
use joshlong_examples.Form.Submit.{
  SubmitOptions, Argument, options_of, Hooks, Page, Request, before_hash, has, upper, refuses,
  default_url, datum_pairs, add_fields, is_get, add_query, callbacks_of, any_file, mode_of,
  submitted, default_type, draft, gather, make_request, submit_pairs, ajax_submit,
}
use joshlong_examples.Form.Requests.{last}
use joshlong_examples.Form.Upload.{Upload, blank, filled, Call, load, timer, run, Attributes}
use joshlong_examples.Form.Reports.{settled, completed, IsReady, run_once, run_reported, run_silent}

program : Unit {0}
unfolding is_image is_tick is_select_one is_select is_skipped is_idle is_press is_clicked
    option_value select_loop select_value field_value add_value field_values text_pair value_pairs
    image_pairs element_pairs collect click_pairs form_to_array field_pairs is_line is_textarea
    set_selected before_hash has upper refuses default_url datum_pairs add_fields is_get text_eq
    add_query callbacks_of any_file mode_of submitted default_type draft gather make_request
    submit_pairs ajax_submit options_of
program = tt

abbrev user : Element
user = record {
  ref = 1;
  name = codes "user";
  type = text;
  tag = input;
  disabled = false;
  checked = false;
  value = some (codes "ann");
  in_form = true;
  selected_index = none;
  options = [];
}

abbrev agree : Element
agree = record user { ref = 2; name = codes "agree"; type = checkbox; value = some (codes "on") }

abbrev token : Element
token = record user { ref = 3; name = codes "t"; type = hidden }

abbrev option : Text → OptionElement
option v = record { value = v; label = v; selected = true; specified = none }

abbrev colours : Element
colours = record user {
  ref = 4;
  name = codes "colours";
  type = select_multiple;
  tag = select;
  selected_index = some 0;
  options = option (codes "red") ∷ set_selected false (option (codes "blue")) ∷ option [] ∷ [];
}

abbrev size : Element
size = record colours { type = select_one }

abbrev map_image : Element
map_image = record user { ref = 5; name = codes "map"; type = image; value = some [] }

abbrev form : Form
form = record {
  elements = some (user ∷ colours ∷ []);
  descendants = some (user ∷ map_image ∷ colours ∷ []);
  clk = none;
  clk_x = none;
  clk_y = none;
}

abbrev clicked : Form
clicked = record form { clk = some map_image; clk_x = some 3; clk_y = some 4 }

abbrev val : Element → Text
val el = get_or el.value []

plain_form :
    form_to_array val false (some form)
    ≡ text_pair (codes "user") (codes "ann")
      ∷ text_pair (codes "colours") (codes "red")
      ∷ text_pair (codes "colours") []
      ∷ []
unfolding program set_selected
plain_form = refl

colours-IsSuccessful : IsSuccessful none colours
colours-IsSuccessful = record {
  named = refl;
  enabled = refl;
  acts = (λ e. ground arith, λ e. ground arith);
  ticked = λ e. absurd (ground arith);
  clicked = λ e. absurd (ground arith);
  chosen = λ e. (0, refl);
}

form_to_array-FromField_example :
    All (FromField none (user ∷ colours ∷ [])) (form_to_array val false (some form))
unfolding click_pairs
form_to_array-FromField_example = form_to_array-FromField val form (user ∷ colours ∷ []) refl refl

field_value-clear_field_example :
    All (λ t. t ≡ []) (texts (field_value none (clear_field user) (some true)))
unfolding is_line is_select
field_value-clear_field_example =
    field_value-clear_field none user refl (λ e. absurd (ground arith))

abbrev options : SubmitOptions
options = record {
  url = none;
  type = none;
  fields = [];
  semantic = false;
  data_type = false;
  target = none;
  success = some 1;
  reset_form = false;
  clear_form = true;
  iframe = some false;
  close_keep_alive = none;
}

abbrev page : Page
page = record {
  form = some form;
  action = codes "/chat#top";
  method = none;
  href = codes "/";
  files = [];
}

-- `beforeSubmit` adds a pair.
abbrev hooks : Hooks
hooks = record {
  pre_serialize = λ d. (false, d);
  before_serialize = λ d. (none, d);
  before_submit =
      λ d. (some true, record d { pairs = d.pairs ++ text_pair (codes "t") (codes "1") ∷ [] });
  validate = λ d. (false, d);
}

-- A stand-in for `$.param`: the number of pairs, in the unary system.
abbrev count_pairs : List Pair → Text
count_pairs ps = map (λ p. b'1') ps

abbrev trim : Text → Text
trim t = t

abbrev request : Request
request =
    make_request count_pairs (last jq trim count_pairs val hooks (Argument.options options) page)

request_url : request.url ≡ codes "/chat?1111"
unfolding program
request_url = refl

abbrev fresh : Upload
fresh = record {
  global = true;
  has_complete = false;
  cb_invoked = 0;
  timed_out = false;
  dom_check_count = 50;
  active = 1;
  log = [];
}

fresh-IsReady : IsReady fresh
fresh-IsReady = record { unheard = (refl, refl); waiting = (refl, refl); tries = refl }

abbrev calls : List Call
calls = load blank ∷ timer blank ∷ load (filled true) ∷ timer (filled false) ∷ []

run_once_example :
    (settled (run calls fresh).log ≤ 1)
    × (completed (run calls fresh).log
        ≡ (if (run calls fresh).global then settled (run calls fresh).log else 0))
run_once_example = run_once calls fresh fresh-IsReady

run_reported_example :
    settled (run (replicate 2 (load blank) ++ load (filled false) ∷ []) fresh).log ≡ 1
run_reported_example = run_reported 2 false fresh fresh-IsReady (omega arith)

run_silent_example :
    ((run (replicate 50 (load blank) ++ calls) fresh).log ≡ [])
    × ((run (replicate 50 (load blank) ++ calls) fresh).active ≡ 1)
run_silent_example = run_silent calls fresh 50 fresh-IsReady refl

abbrev attributes : Attributes
attributes = record {
  target = some (codes "_top");
  action = codes "/a";
  method = none;
  encoding = none;
}

abbrev save : Element
save = record user {
  ref = 7;
  name = codes "save";
  type = submit;
  tag = button_tag;
  value = some (codes "Save");
}

abbrev inside_save : Click
inside_save = record {
  target = record save { ref = 8; name = []; tag = other_tag; value = none };
  is_submit = false;
  closest = some save;
  offset_x = none;
  offset_y = none;
  page_x = 12;
  page_y = 30;
  offset = some (10, 20);
  offset_left = 10;
  offset_top = 20;
}

element_pairs-click_example :
    (element_pairs val false (click inside_save form).0 save
      ≡ text_pair (codes "save") (codes "Save") ∷ [])
    × (element_pairs val false (clear_click (click inside_save form).0) save ≡ [])
unfolding submit_element
element_pairs-click_example =
    element_pairs-click val false inside_save form save save (codes "Save") refl
      (refl, refl, refl, inr refl, refl, refl)
