-- ===== src/Form/Upload.antt =====
-- jquery.form.js, `fileUpload`: the submission through a frame, and its callback `cb`.
use joshlong_examples.Common.{
  ℕ, ◌+◌, ◌-◌, Bool, true, false, not, ◌&&◌, Option, none, some, List, [], ◌∷◌, ◌++◌, ◌==◌,
  if◌then◌else◌, ltb, Text, codes, nonempty,
}
use joshlong_examples.Form.Fields.{Form, Entry, string, coordinate, is_image}
use joshlong_examples.Form.Submit.{refuses}

-- What the page sees of an upload, in the order in which it sees it.
pub data Report : Type 0 where
  ajax_start ajax_send name_alert : Report
  error_timeout error_response : Report
  success ajax_success ajax_complete ajax_stop : Report
  complete : Bool → Report  -- the option `complete`, with 'success' or 'error'

-- The variables of one call of `fileUpload`, and jQuery's counter of active requests.
pub record Upload : Type 0 where
  pub global : Bool
  pub has_complete : Bool
  pub cb_invoked : ℕ
  pub timed_out : Bool
  pub dom_check_count : ℕ
  pub active : ℕ
  pub log : List Report

-- What `cb` finds in the frame: nothing yet, or a document, which `$.httpData` accepts or not.
pub data Frame : Type 0 where
  blank : Frame
  filled : Bool → Frame

unfoldable pub when : Bool → Report → List Report
when b r = if b then r ∷ [] else []

-- The end of `cb`: the callbacks and triggers, once the response was read or an error was raised.
unfoldable pub finish : Bool → List Report → Upload → Upload
finish good errors u =
    let active = if u.global then u.active - 1 else u.active in
    record u {
      active = active;
      log =
          u.log
          ++ errors
          ++ (if good then success ∷ when u.global ajax_success else [])
          ++ when u.global ajax_complete
          ++ when (u.global && active == 0) ajax_stop
          ++ when u.has_complete (complete good);
    }

-- `--domCheckCount` and what follows where the frame is blank: another try in 100 ms, or none.
unfoldable pub look_again : Upload → Upload
look_again u =
    let left = u.dom_check_count - 1 in
    record u { dom_check_count = left; cb_invoked = if left == 0 then u.cb_invoked else 0 }

unfoldable pub read_frame : Frame → Upload → Upload
read_frame blank u = look_again u
read_frame (filled good) u = finish good (if good then [] else error_response ∷ []) u

-- `cb`
unfoldable pub cb : Frame → Upload → Upload
cb frame u =
    let entered = record u { cb_invoked = u.cb_invoked + 1 } in
    if ltb 0 u.cb_invoked
    then entered
    else if u.timed_out
    then finish false (error_timeout ∷ []) entered
    else read_frame frame entered

-- `timedOut = true; cb();`
unfoldable pub time_out : Frame → Upload → Upload
time_out frame u = cb frame (record u { timed_out = true })

-- The calls that the browser makes: `cb` on load or on another try, or the timer.
pub data Call : Type 0 where
  load : Frame → Call
  timer : Frame → Call

unfoldable pub call : Call → Upload → Upload
call (load frame) u = cb frame u
call (timer frame) u = time_out frame u

unfoldable pub run : List Call → Upload → Upload
run [] u = u
run (c ∷ cs) u = run cs (call c u)

-- The answers that decide whether an upload begins.
pub record Start : Type 0 where
  pub submit_named : Bool  -- whether an input is named `submit`
  pub before_send : Option Bool
  pub aborted : Bool  -- whether a handler called `xhr.abort()`

-- `fileUpload` up to the timer that submits the form; `none` if it returns before.
unfoldable pub begin : Start → Bool → Bool → ℕ → List Report × ℕ × Option Upload
begin s global has_complete active =
    if s.submit_named
    then (name_alert ∷ [], active, none)
    else (let running = if global then active + 1 else active in
        let log = when (global && active == 0) ajax_start ++ when global ajax_send in
        if refuses s.before_send
        then (log, (if global then running - 1 else running), none)
        else if s.aborted
        then (log, running, none)
        else (
          log,
          running,
          some (record {
            global = global;
            has_complete = has_complete;
            cb_invoked = 0;
            timed_out = false;
            dom_check_count = 50;
            active = running;
            log = log;
          }),
        ))

-- The data that are added for the control that was clicked. The coordinates stand under the
-- global variable `name` of the window.
unfoldable pub clicked_data : Text → Form → List (Text × Entry) → List (Text × Entry)
clicked_data window_name f extra = elim f.clk [
  | none ↦ extra
  | some sub ↦
      if nonempty sub.name && not sub.disabled
      then extra
        ++ (sub.name, elim sub.value [ none ↦ string [] | some v ↦ string v ])
          ∷ (if is_image sub.type
              then (window_name ++ codes ".x", coordinate f.clk_x)
                ∷ (window_name ++ codes ".y", coordinate f.clk_y)
                ∷ []
              else [])
      else extra
]

-- The attributes of the form that the upload writes.
pub record Attributes : Type 0 where
  pub target : Option Text
  pub action : Text
  pub method : Option Text
  pub encoding : Option Text

-- The attributes while the form is submitted.
unfoldable pub set_attributes : Text → Text → Bool → Attributes → Attributes
set_attributes id url skip_encoding a = record {
  target = some id;
  action = url;
  method = some (codes "POST");
  encoding = if skip_encoding then a.encoding else some (codes "multipart/form-data");
}

-- The `finally` block, with the attributes `t` and `a` read before.
unfoldable pub restore_attributes : Attributes → Attributes → Attributes
restore_attributes before now = record now {
  action = before.action;
  target = elim before.target [ none ↦ none | some t ↦ if nonempty t then some t else none ];
}
