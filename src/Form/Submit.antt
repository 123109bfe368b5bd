-- ===== src/Form/Submit.antt =====
-- jquery.form.js, `ajaxSubmit`: from the hooks to the request, or to the upload through a frame.
--
-- The hooks are functions of the page, which may change the options, the form and the array of pairs,
-- the record `Draft`. A trigger handler may set `veto.veto`, and `beforeSerialize` and `beforeSubmit`
-- may return false. The functions of jQuery on text and fields (`trim`, `param`, `attr`) are parameters.
use joshlong_examples.Common.{
  ℕ, Bool, ◌-◌, true, false, not, ◌&&◌, ◌||◌, Option, none, some, List, [], ◌∷◌, ◌++◌, ◌==◌, leb,
  map, if◌then◌else◌, is_some, get_or, Text, codes, text_eq, nonempty, JQuery,
}
use joshlong_examples.Form.Fields.{Element, Form, Pair, text_pair, form_to_array}

-- `url.match(/^([^#]+)/)[1]`: the part before the first `#`.
unfoldable pub before_hash : Text → Text
before_hash [] = []
before_hash (c ∷ cs) = let rest = c ∷ before_hash cs in if c == b'#' then [] else rest

unfoldable pub has : ℕ → Text → Bool
has c [] = false
has c (d ∷ s) = d == c || has c s

-- `toUpperCase` on ASCII letters, which request methods are written with.
unfoldable pub upper : Text → Text
upper [] = []
upper (c ∷ s) = (if leb b'a' c && leb c b'z' then c - 32 else c) ∷ upper s

pub data Datum : Type 0 where
  single : Text → Datum
  several : List Text → Datum

-- The options of `ajaxSubmit` that decide what is sent; a missing one is `none`.
pub record SubmitOptions : Type 0 where
  pub url : Option Text
  pub type : Option Text
  pub fields : List (Text × Datum)  -- the option `data`
  pub semantic : Bool
  pub data_type : Bool  -- whether `dataType` is set
  pub target : Option Text
  pub success : Option ℕ
  pub reset_form : Bool
  pub clear_form : Bool
  pub iframe : Option Bool
  pub close_keep_alive : Option Text

-- The argument of `ajaxSubmit`: a function stands for the option `success` alone.
pub data Argument : Type 0 where
  function : ℕ → Argument
  options : SubmitOptions → Argument

unfoldable pub options_of : Argument → SubmitOptions
options_of (options o) = o
options_of (function f) = record {
  url = none;
  type = none;
  fields = [];
  semantic = false;
  data_type = false;
  target = none;
  success = some f;
  reset_form = false;
  clear_form = false;
  iframe = none;
  close_keep_alive = none;
}

-- The attributes of the form, the page's address, and the values of the form's file inputs.
pub record Page : Type 0 where
  pub form : Option Form
  pub action : Text
  pub method : Option Text
  pub href : Text
  pub files : List Text

-- The options with the url and the type that they have by then, the form, and the array `a`.
pub record Draft : Type 0 where
  pub url : Text
  pub type : Text
  pub options : SubmitOptions
  pub page : Page
  pub pairs : List Pair

-- The page's handlers: the answer of each, a veto or what it returns, and the draft as it leaves it. An
-- option that is not set has no answer and leaves the draft as it is.
pub record Hooks : Type 0 where
  pub pre_serialize : Draft → Bool × Draft
  pub before_serialize : Draft → Option Bool × Draft
  pub before_submit : Draft → Option Bool × Draft
  pub validate : Draft → Bool × Draft

pub data Callback : Type 0 where
  reset_form clear_form : Callback
  load_target : Text → Option ℕ → Callback
  user_success : ℕ → Callback

pub data Mode : Type 0 where
  ajax upload : Mode
  upload_after : Text → Mode

-- What `$.ajax` gets in the mode `ajax`. In the two other modes these are the options that `fileUpload`
-- starts from, which submits the form itself, with the method POST.
pub record Request : Type 0 where
  pub url : Text
  pub type : Text
  pub body : Option Text
  pub callbacks : List Callback
  pub mode : Mode

pub data Reason : Type 0 where
  nothing_selected vetoed_serialize aborted_serialize aborted_submit vetoed_validate : Reason

-- `ajaxSubmit` stops before a request, or makes one and fires `form-submit-notify`.
pub data Outcome : Type 0 where
  stopped : Reason → Outcome
  sent : Request → Outcome

unfoldable pub refuses : Option Bool → Bool
refuses (some false) = true
refuses _ = false

-- The url that the options may replace.
unfoldable pub default_url : (Text → Text) → Page → Text
default_url trim p = let u = before_hash (trim p.action) in if nonempty u then u else p.href

unfoldable pub datum_pairs : Text → Datum → List Pair
datum_pairs n (single v) = text_pair n v ∷ []
datum_pairs n (several vs) = map (text_pair n) vs

-- The loop over `options.data`.
unfoldable pub add_fields : List (Text × Datum) → List Pair → List Pair
add_fields [] a = a
add_fields ((n, d) ∷ ds) a = add_fields ds (a ++ datum_pairs n d)

unfoldable pub is_get : Text → Bool
is_get type = text_eq (upper type) (codes "GET")

unfoldable pub add_query : Text → Text → Text
add_query url q = url ++ (if has b'?' url then codes "&" else codes "?") ++ q

unfoldable pub callbacks_of : SubmitOptions → List Callback
callbacks_of o =
    (if o.reset_form then reset_form ∷ [] else [])
    ++ (if o.clear_form then clear_form ∷ [] else [])
    ++ (if not o.data_type && is_some o.target
        then load_target (get_or o.target []) o.success ∷ []
        else elim o.success [ none ↦ [] | some f ↦ user_success f ∷ [] ])

-- The loop that sets `found`.
unfoldable pub any_file : List Text → Bool
any_file [] = false
any_file (v ∷ vs) = nonempty v || any_file vs

unfoldable pub mode_of : SubmitOptions → List Text → Mode
mode_of o files =
    let has_inputs : Bool = elim files [ [] ↦ false | _ ∷ _ ↦ true ] in
    let forced = get_or o.iframe false in
    let forbidden = refuses o.iframe in
    if (has_inputs && not forbidden) || (forced || any_file files)
    then elim o.close_keep_alive [ none ↦ upload | some url ↦ upload_after url ]
    else ajax

-- The pairs that are submitted: those of the form, then those of `options.data`.
unfoldable pub submitted : (Element → Text) → SubmitOptions → Page → List Pair
submitted val o p = add_fields o.fields (form_to_array val o.semantic p.form)

-- `this.attr('method') || 'GET'`
unfoldable pub default_type : Page → Text
default_type p = let m = get_or p.method [] in if nonempty m then m else codes "GET"

-- The options after `$.extend`.
unfoldable pub draft : JQuery → (Text → Text) → SubmitOptions → Page → Draft
draft jq trim o p = record {
  url = jq.extend Text (default_url trim p) o.url;
  type = jq.extend Text (default_type p) o.type;
  options = o;
  page = p;
  pairs = [];
}

unfoldable pub gather : (Element → Text) → Draft → Draft
gather val d = record d { pairs = submitted val d.options d.page }

unfoldable pub make_request : (List Pair → Text) → Draft → Request
make_request param d =
    let q = param d.pairs in
    record {
      url = if is_get d.type then add_query d.url q else d.url;
      type = d.type;
      body = if is_get d.type then none else some q;
      callbacks = callbacks_of d.options;
      mode = mode_of d.options d.page.files;
    }

-- From the array on.
unfoldable pub submit_pairs : (List Pair → Text) → Hooks → Draft → Outcome
submit_pairs param h d =
    let (answer, d') = h.before_submit d in
    let (veto, final) = h.validate d' in
    if refuses answer
    then stopped aborted_submit
    else if veto
    then stopped vetoed_validate
    else sent (make_request param final)

unfoldable pub ajax_submit :
    JQuery
    → (Text → Text)
    → (List Pair → Text)
    → (Element → Text)
    → Hooks
    → Argument
    → Page
    → Outcome
unfolding submit_pairs
ajax_submit jq trim param val h a p =
    let (veto, d) = h.pre_serialize (draft jq trim (options_of a) p) in
    let (answer, d') = h.before_serialize d in
    if not (is_some p.form)
    then stopped nothing_selected
    else if veto
    then stopped vetoed_serialize
    else if refuses answer
    then stopped aborted_serialize
    else submit_pairs param h (gather val d')
