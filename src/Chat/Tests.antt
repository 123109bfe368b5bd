-- ===== src/Chat/Tests.antt =====
-- The chat at concrete inputs: Ann and Bob have joined, and Eve with a colon in her name.
use joshlong_examples.Common.{
  ◌≡◌, ◌++◌, refl, ap, Bool, Option, if◌then◌else◌, true, false, none, some, List, [], ◌∷◌, map,
  Text, codes, is_some, not, ◌&&◌, text_eq, lacks, plain_jquery as jq,
}
use joshlong_examples.Chat.Adapter.{ScriptSession, Dwr}
use joshlong_examples.Chat.Server.{
  Room, empty_room, session_id, get_users, add_users, add, has_element, direct_message, logout,
  get_chat_messages, join, send, put_if_absent, without, group_message,
}
use joshlong_examples.Chat.Page.{
  Page, Selector, own_ids, name_of, is_user, setup_direct_message, click_span, refresh_roster,
  refresh_chat_transcript, click_say, transcript_lines, click_join,
}
use joshlong_examples.Chat.History.{Command, joins, says, leaves, view, run, view_run, view-run}
use joshlong_examples.Chat.Delivery.{called, messaged, direct_message-logout}
use joshlong_examples.Chat.Reach.{Step, Reach, opened, next, are_tidy, Reach-roster}
use joshlong_examples.Chat.Roster.{refresh_roster_lem}
use joshlong_examples.Chat.Clicks.{whisper, pick, click_say-pick}
use joshlong_examples.Chat.Transcript.{message_to_all, click_say-refresh}

abbrev ann : Text
ann = codes "ann"

abbrev bob : Text
bob = codes "bob"

abbrev first_session : ScriptSession
first_session = record { id = codes "s1"; is_invalidated = false }

abbrev second_session : ScriptSession
second_session = record { id = codes "s2"; is_invalidated = false }

abbrev has_null : List (Option ScriptSession) → Bool
has_null [] = false
has_null (none ∷ ss) = true
has_null (some s ∷ ss) = has_null ss

no_null : (ss : List ScriptSession) → has_null (map some ss) ≡ false
no_null [] = refl
no_null (s ∷ ss) = no_null ss

abbrev dwr : Dwr
dwr = record {
  has_context = true;
  all_sessions = first_session ∷ second_session ∷ [];
  by_id = λ o. elim o [
    | none ↦ none
    | some id ↦ elim (text_eq id (codes "s1")) [
      | true ↦ some first_session
      | false ↦ some second_session
    ]
  ];
  has_text = λ t. elim t [ [] ↦ false | _ ∷ _ ↦ true ];
  refuses = has_null;
  refuses_sessions = no_null;
  refuses_null = refl;
}

-- A server on which every session has ended.
abbrev emptied : Dwr
emptied = record dwr { all_sessions = []; by_id = λ _. none }

-- What finds the spans of a name of any kind.
abbrev selector : Selector
selector = record {
  select = λ ids name. some (if has_element ids name then name ∷ [] else []);
  select_lem = λ ids name _ e. ap (λ b. some (if b then name ∷ [] else [])) e;
}

abbrev two : Room
two = record {
  users = (ann, codes "s1") ∷ (bob, codes "s2") ∷ [];
  chat_messages = codes "ann: hi" ∷ [];
  effects = [];
}

abbrev page : Page
page = record {
  dm = [];
  private_message_user = none;
  user = some ann;
  msg_field = codes "hey";
  transcript = [];
  roster = [];
  handles = none;
  clickable = [];
  chat_visible = true;
  join_visible = false;
  welcome = [];
}

abbrev history : List (Dwr × Command)
history = (dwr, joins (codes "s1") ann) ∷ (dwr, says (codes "hi")) ∷ (dwr, leaves ann) ∷ []

view-run_example : view (run history empty_room) ≡ view_run history (view empty_room)
view-run_example = view-run history empty_room

direct_message-logout_example :
    let after = logout emptied bob two in
    (get_users after ≡ get_users two)
    × (direct_message dwr bob (codes "psst") after
        ≡ messaged (codes "psst") (dwr.by_id (some (codes "s2"))) after)
unfolding session_id text_eq
direct_message-logout_example =
    direct_message-logout emptied dwr bob (codes "psst") (codes "s2") two refl refl refl

refresh_roster_lem_example :
    let names = map name_of (get_users two) in
    let q = refresh_roster jq selector two page in
    (q.handles ≡ some names)
    × (has_element names bob ≡ is_some (session_id bob two.users))
    × (click_span bob q ≡ (
        if is_some (session_id bob two.users) && not (is_user page bob)
        then setup_direct_message (some bob) q
        else q))
unfolding get_users add_users add has_element name_of own_ids text_eq
refresh_roster_lem_example = refresh_roster_lem jq selector two page bob refl refl

click_say-pick_example :
    click_say dwr (pick jq selector two bob page) two
    ≡ called (codes "handleDirectMessage") (whisper page) (some second_session ∷ []) two
unfolding session_id text_eq get_users add_users add has_element name_of own_ids is_user
click_say-pick_example =
    click_say-pick jq selector dwr two page bob (codes "s2") second_session refl refl refl refl refl
      refl refl

abbrev three : Room
three = record two { users = (codes "eve:x", codes "s2") ∷ two.users }

click_say-refresh_example :
    let after = record two { chat_messages = two.chat_messages ++ message_to_all page ∷ [] } in
    (click_say dwr page two
      ≡ called (codes "handleMessage") (message_to_all page) (map some dwr.all_sessions) after)
    × ((refresh_chat_transcript (click_say dwr page two) page).transcript
        ≡ codes "<div>"
          ++ ((transcript_lines (get_chat_messages two) ++ (message_to_all page ++ codes "<br/>"))
              ++ codes "</div>"))
click_say-refresh_example = click_say-refresh dwr page page two refl refl

abbrev ann_joined : Room
ann_joined = (click_join dwr (codes "s1") ann page empty_room).1

abbrev both_joined : Room
both_joined = (click_join dwr (codes "s2") bob page (click_say dwr page ann_joined)).1

both_joined-Reach : Reach (lacks b':') both_joined
both_joined-Reach =
    next (next (next opened (Step.joins dwr (codes "s1") ann page refl)) (Step.says dwr page))
      (Step.joins dwr (codes "s2") bob page refl)

Reach-roster_example :
    (are_tidy (lacks b':') both_joined.users ≡ true)
    × ((refresh_roster jq selector both_joined page).handles
        ≡ some (map (λ e. e.0) both_joined.users))
Reach-roster_example = Reach-roster jq selector page both_joined both_joined-Reach

-- The users of that room.
both_users : both_joined.users ≡ (ann, codes "s1") ∷ (bob, codes "s2") ∷ []
unfolding click_join join send put_if_absent without session_id text_eq click_say group_message
    empty_room
both_users = refl
