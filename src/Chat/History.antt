-- ===== src/Chat/History.antt =====
-- The room as a view that forgets its representation: which session a name has, and what was said.
use mathlib.Core.Path.{fun_ext}
use joshlong_examples.Common.{
  ◌≡◌, refl, ap, ◌∙◌, Bool, true, false, not, Option, none, some, List, [], ◌∷◌, ◌++◌,
  if◌then◌else◌, Text, text_eq,
}
use joshlong_examples.Chat.Adapter.{Dwr, ScriptSession}
use joshlong_examples.Chat.Server.{
  session_id, Room, send, reset, join, direct_message, group_message, end_session, logout,
  invalidates,
}
use joshlong_examples.Chat.Users.{session_id-join}

-- The calls that pages make; `joins` with the id of the page's session.
pub data Command : Type 0 where
  joins : Text → Text → Command
  says : Text → Command
  directs : Text → Text → Command
  leaves : Text → Command
  resets : Command

abbrev pub step : Dwr → Command → Room → Room
step dwr (joins id user) r = join dwr id user r
step dwr (says msg) r = group_message dwr msg r
step dwr (directs user msg) r = direct_message dwr user msg r
step dwr (leaves u) r = logout dwr u r
step dwr resets r = reset r

-- A history, each call with what the libraries answer during it.
abbrev pub run : List (Dwr × Command) → Room → Room
run [] r = r
run ((dwr, c) ∷ cs) r = run cs (step dwr c r)

-- What a room promises: a session or none for each name, and a transcript.
pub record View : Type 0 where
  pub session : Text → Option Text
  pub transcript : List Text

abbrev pub view : Room → View
view r = record { session = λ v. session_id v r.users; transcript = r.chat_messages }

-- What each call means in that view: a join gives the name the page's session, a message to all is
-- added at the end, a reset forgets all, and nothing else counts.
abbrev pub view_step : Command → View → View
view_step (joins id user) w = record w {
  session = λ v. if text_eq user v then some id else w.session v;
}
view_step (says msg) w = record w { transcript = w.transcript ++ msg ∷ [] }
view_step (directs user msg) w = w
view_step (leaves u) w = w
view_step resets w = record { session = λ v. none; transcript = [] }

abbrev pub view_run : List (Dwr × Command) → View → View
view_run [] w = w
view_run ((dwr, c) ∷ cs) w = view_run cs (view_step c w)

view-end_session : (o : Option ScriptSession) (r : Room) → view (end_session o r) ≡ view r
unfolding end_session
view-end_session none r = refl
view-end_session (some s) r = either (not s.is_invalidated)
  where
    either :
        (b : Bool)
        → view (if b then record r { effects = r.effects ++ invalidates s ∷ [] } else r) ≡ view r
    either true = refl
    either false = refl

view-step : (dwr : Dwr) (c : Command) (r : Room) → view (step dwr c r) ≡ view_step c (view r)
unfolding join send group_message direct_message logout reset session_id
view-step dwr (joins id user) r =
    ap (λ (f : Text → Option Text). record { session = f; transcript = r.chat_messages })
      (fun_ext (λ v. session_id-join dwr id user v r))
view-step dwr (says msg) r = refl
view-step dwr (directs user msg) r = refl
view-step dwr (leaves u) r = view-end_session (dwr.by_id (session_id u r.users)) r
view-step dwr resets r = refl

-- The room refines its view: after any history of calls, from any room, each name has the session,
-- and the transcript the messages, that the calls mean in the view.
pub view-run : (cs : List (Dwr × Command)) (r : Room) → view (run cs r) ≡ view_run cs (view r)
view-run [] r = refl
view-run ((dwr, c) ∷ cs) r = view-run cs (step dwr c r) ∙ ap (view_run cs) (view-step dwr c r)
