-- ===== src/Form/Reports.antt =====
-- What the page hears of an upload through a frame, for every order of the browser's calls.
use joshlong_examples.Common.{
  ℕ, zero, suc, ◌+◌, ◌-◌, ◌≤◌, ◌<◌, ◌≡◌, refl, ap, ◌∙◌, arith, Bool, true, false, some, List, [],
  ◌∷◌, ◌++◌, ◌==◌, if◌then◌else◌, replicate, Text, codes, nonempty,
}
use joshlong_examples.Form.Fields.{Element, Form, Entry, string, coordinate, is_image}
use joshlong_examples.Form.Upload.{
  Report, error_timeout, error_response, success, ajax_complete, Upload, Frame, blank, filled, when,
  finish, look_again, read_frame, cb, time_out, Call, load, timer, call, run, Start, begin,
  clicked_data, Attributes, set_attributes, restore_attributes,
}

-- How often a list of reports settles the upload, and how often it reports `ajaxComplete`.
abbrev pub settles : Report → ℕ
settles success = 1
settles error_timeout = 1
settles error_response = 1
settles _ = 0

abbrev pub settled : List Report → ℕ
settled [] = 0
settled (r ∷ rs) = settles r + settled rs

abbrev completes : Report → ℕ
completes ajax_complete = 1
completes _ = 0

abbrev pub completed : List Report → ℕ
completed [] = 0
completed (r ∷ rs) = completes r + completed rs

settled-append : (xs ys : List Report) → settled (xs ++ ys) ≡ settled xs + settled ys
settled-append [] ys = omega arith
settled-append (x ∷ xs) ys = omega (arith, settled-append xs ys)

completed-append : (xs ys : List Report) → completed (xs ++ ys) ≡ completed xs + completed ys
completed-append [] ys = omega arith
completed-append (x ∷ xs) ys = omega (arith, completed-append xs ys)

settled-finish :
    (good : Bool) (errors : List Report) (u : Upload)
    → settled errors + (if good then 1 else 0) ≡ 1
    → settled (finish good errors u).log ≡ settled u.log + 1
unfolding finish when
settled-finish good errors u h = simp settled-append (ground arith)

completed-finish :
    (good : Bool) (errors : List Report) (u : Upload)
    → completed errors ≡ 0
    → completed (finish good errors u).log ≡ completed u.log + (if u.global then 1 else 0)
unfolding finish when
completed-finish good errors u h = simp completed-append (ground arith)

finish_rest :
    (good : Bool) (errors : List Report) (u : Upload)
    → ((finish good errors u).cb_invoked ≡ u.cb_invoked)
      × ((finish good errors u).global ≡ u.global)
unfolding finish
finish_rest good errors u = (refl, refl)

-- An upload between two calls.
pub record IsSettling (u : Upload) : Type 0 where
  pub once : settled u.log ≤ 1
  pub closed : 0 < settled u.log → 0 < u.cb_invoked
  pub complete_with : completed u.log ≡ (if u.global then settled u.log else 0)

finish-IsSettling :
    (good : Bool) (errors : List Report) (u : Upload)
    → settled errors + (if good then 1 else 0) ≡ 1
    → completed errors ≡ 0
    → settled u.log ≡ 0
    → 0 < u.cb_invoked
    → completed u.log ≡ 0
    → IsSettling (finish good errors u)
finish-IsSettling good errors u h k z o c = ground (
  arith,
  settled-finish good errors u h,
  completed-finish good errors u k,
  finish_rest good errors u,
)

cb-IsSettling : (frame : Frame) (u : Upload) → IsSettling u → IsSettling (cb frame u)
unfolding cb read_frame look_again
cb-IsSettling blank u v = ground (
  arith,
  v.closed,
  finish-IsSettling false (error_timeout ∷ []) (record u { cb_invoked = u.cb_invoked + 1 }),
)
cb-IsSettling (filled good) u v = ground (
  arith,
  v.closed,
  finish-IsSettling false (error_timeout ∷ []) (record u { cb_invoked = u.cb_invoked + 1 }),
  finish-IsSettling good (if good then [] else error_response ∷ [])
      (record u { cb_invoked = u.cb_invoked + 1 }),
)

call-IsSettling : (c : Call) (u : Upload) → IsSettling u → IsSettling (call c u)
unfolding call time_out
call-IsSettling (load frame) u v = cb-IsSettling frame u v
call-IsSettling (timer frame) u v =
    cb-IsSettling frame (record u { timed_out = true })
      (record { once = v.once; closed = v.closed; complete_with = v.complete_with })

run-IsSettling : (cs : List Call) (u : Upload) → IsSettling u → IsSettling (run cs u)
unfolding run
run-IsSettling [] u v = v
run-IsSettling (c ∷ cs) u v = run-IsSettling cs (call c u) (call-IsSettling c u v)

call_closed :
    (c : Call) (u : Upload)
    → 0 < u.cb_invoked
    → ((call c u).log ≡ u.log) × ((call c u).active ≡ u.active) × (0 < (call c u).cb_invoked)
unfolding call time_out cb
call_closed (load frame) u h = ground arith
call_closed (timer frame) u h = ground arith

-- Once `cb` is closed, nothing more is heard.
run-closed :
    (cs : List Call) (u : Upload)
    → 0 < u.cb_invoked
    → ((run cs u).log ≡ u.log) × ((run cs u).active ≡ u.active)
unfolding run
run-closed [] u h = (refl, refl)
run-closed (c ∷ cs) u h =
    let (l, a, o) = call_closed c u h in
    let (l', a') = run-closed cs (call c u) o in (l' ∙ l, a' ∙ a)

-- One look at a blank frame, while tries are left.
call_blank :
    (u : Upload)
    → u.cb_invoked ≡ 0
    → u.timed_out ≡ false
    → call (load blank) u ≡ record u {
      dom_check_count = u.dom_check_count - 1;
      cb_invoked = if u.dom_check_count - 1 == 0 then 1 else 0;
    }
unfolding call cb read_frame look_again
call_blank u a b = ground arith

run-blank :
    (n : ℕ) (u : Upload)
    → u.cb_invoked ≡ 0
    → u.timed_out ≡ false
    → n < u.dom_check_count
    → run (replicate n (load blank)) u ≡ record u { dom_check_count = u.dom_check_count - n }
unfolding run
run-blank zero u a b h = ground arith
run-blank (suc n) u a b h =
    let next : Upload = record u { dom_check_count = u.dom_check_count - 1 } in
    let stays : call (load blank) u ≡ next = call_blank u a b ∙ ground arith in
    ap (run (replicate n (load blank))) stays ∙ run-blank n next a b (omega arith) ∙ ground arith

run-append : (cs ds : List Call) (u : Upload) → run (cs ++ ds) u ≡ run ds (run cs u)
unfolding run
run-append [] ds u = refl
run-append (c ∷ cs) ds u = run-append cs ds (call c u)

-- The looks at a blank frame that use up all tries.
run_exhausted :
    (m : ℕ) (u : Upload)
    → u.cb_invoked ≡ 0
    → u.timed_out ≡ false
    → u.dom_check_count ≡ suc m
    → run (replicate (suc m) (load blank)) u ≡ record u { dom_check_count = 0; cb_invoked = 1 }
unfolding run
run_exhausted zero u a b h = call_blank u a b ∙ ground arith
run_exhausted (suc m) u a b h =
    let next : Upload = record u { dom_check_count = u.dom_check_count - 1 } in
    let stays : call (load blank) u ≡ next = call_blank u a b ∙ ground arith in
    ap (run (replicate (suc m) (load blank))) stays ∙ run_exhausted m next a b (omega arith)

call_filled :
    (good : Bool) (u : Upload)
    → u.cb_invoked ≡ 0
    → u.timed_out ≡ false
    → settled (call (load (filled good)) u).log ≡ settled u.log + 1
unfolding call cb read_frame
call_filled good u a b = ground (
  arith,
  settled-finish good (if good then [] else error_response ∷ [])
      (record u { cb_invoked = u.cb_invoked + 1 }),
)

-- An upload before the first call: `cb` has not run, and 50 tries are left.
pub record IsReady (u : Upload) : Type 0 where
  pub unheard : (settled u.log ≡ 0) × (completed u.log ≡ 0)
  pub waiting : (u.cb_invoked ≡ 0) × (u.timed_out ≡ false)
  pub tries : u.dom_check_count ≡ 50

begin-IsReady :
    (s : Start) (global has_complete : Bool) (active : ℕ) {log : List Report} {running : ℕ}
    {u : Upload}
    → begin s global has_complete active ≡ (log, running, some u)
    → IsReady u × (u.active ≡ running) × (running ≡ (if global then active + 1 else active))
unfolding begin when
begin-IsReady s global has_complete active h = ground arith

-- Whatever calls the browser makes of an upload that begins (looks at the frame, blank or with a
-- response, and the timer, in any order and as often as it likes), the page hears of it at most
-- once, by a success or by an error, and `ajaxComplete` is triggered exactly as often as that, if
-- global events are on, and else never.
pub run_once :
    (cs : List Call) (u : Upload)
    → IsReady u
    → (settled (run cs u).log ≤ 1)
      × (completed (run cs u).log ≡ (if (run cs u).global then settled (run cs u).log else 0))
run_once cs u r =
    let v = run-IsSettling cs u (ground (arith, r.unheard)) in (v.once, v.complete_with)

-- Of an upload that begins, a response that is found after at most 49 looks at a blank frame is
-- reported once: as a success or as an error.
pub run_reported :
    (n : ℕ) (good : Bool) (u : Upload)
    → IsReady u
    → n < 50
    → settled (run (replicate n (load blank) ++ load (filled good) ∷ []) u).log ≡ 1
unfolding run
run_reported n good u r h =
    let left : Upload = record u { dom_check_count = u.dom_check_count - n } in
    let looked = run-blank n u r.waiting.0 r.waiting.1 (omega arith) in
    rw (run-append, looked)
      (call_filled good left r.waiting.0 r.waiting.1 ∙ ap (λ k. k + 1) r.unheard.0)

-- An upload that begins and finds the frame blank 50 times (`n` is 50) has ended without a word:
-- whatever the browser calls afterwards, the timer included, the page hears of no success, no error
-- and no end, and jQuery goes on counting the request as active.
pub run_silent :
    (cs : List Call) (u : Upload) (n : ℕ)
    → IsReady u
    → n ≡ 50
    → ((run (replicate n (load blank) ++ cs) u).log ≡ u.log)
      × ((run (replicate n (load blank) ++ cs) u).active ≡ u.active)
run_silent cs u n r h =
    let used = run_exhausted (n - 1) u r.waiting.0 r.waiting.1 (omega arith) in
    let all : run (replicate n (load blank)) u ≡ record u { dom_check_count = 0; cb_invoked = 1 } =
      let e : n ≡ suc (n - 1) = omega arith in rw e used in
    rw (run-append, all)
      (run-closed cs (record u { dom_check_count = 0; cb_invoked = 1 }) (omega arith))

-- A clicked image of an upload gives its coordinates under the window's name, and not under its own
-- as `formToArray` does: where the window has no name, the keys are `.x` and `.y`.
clicked_data_image :
    (window_name : Text) (f : Form) (el : Element) (extra : List (Text × Entry)) (v : Text)
    → f.clk ≡ some el
    → (nonempty el.name ≡ true) × (el.disabled ≡ false) × (is_image el.type ≡ true)
    → el.value ≡ some v
    → clicked_data window_name f extra
      ≡ extra
        ++ (el.name, string v)
          ∷ (window_name ++ codes ".x", coordinate f.clk_x)
          ∷ (window_name ++ codes ".y", coordinate f.clk_y)
          ∷ []
unfolding clicked_data
clicked_data_image window_name f el extra v c p e =
    let (n, d, i) = p in rw (c, clicked_data) (simp (n, d, i, e))

-- After an upload a form that had a target has its own action and target again, but it keeps the
-- method POST, and the multipart encoding unless the option forbids it.
restore-set_attributes :
    (id url : Text) (skip : Bool) (a : Attributes) (t : Text)
    → a.target ≡ some t
    → nonempty t ≡ true
    → let b = restore_attributes a (set_attributes id url skip a) in
      (b.action ≡ a.action)
      × (b.target ≡ a.target)
      × (b.method ≡ some (codes "POST"))
      × (b.encoding ≡ (if skip then a.encoding else some (codes "multipart/form-data")))
unfolding restore_attributes set_attributes
restore-set_attributes id url skip a t e h = (refl, rw (e, h), refl, refl)
