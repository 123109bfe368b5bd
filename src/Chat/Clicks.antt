-- ===== src/Chat/Clicks.antt =====
-- What a page sends to a name that it clicks on its roster, through service and adapter.
use joshlong_examples.Common.{
  ◌≡◌, ap, ◌∙◌, true, false, not, ◌&&◌, some, [], ◌∷◌, ◌++◌, map, is_some, if◌then◌else◌, Text,
  codes, JQuery,
}
use joshlong_examples.Chat.Adapter.{Dwr, ScriptSession}
use joshlong_examples.Chat.Server.{Users, session_id, Room, get_users, direct_message}
use joshlong_examples.Chat.Delivery.{called, direct_message_lem}
use joshlong_examples.Chat.Page.{
  Page, Selector, setup_direct_message, name_of, is_user, refresh_roster, show_roster, click_span,
  shown_user, click_say,
}
use joshlong_examples.Chat.Roster.{are_plain, are_simple, refresh_roster_lem}

-- What the page of a user says to one other.
abbrev pub whisper : Page → Text
whisper p = codes "from " ++ (shown_user p ++ (codes ":" ++ p.msg_field))

-- The page after it refreshed its roster and a name on it was clicked.
abbrev pub pick : JQuery → Selector → Room → Text → Page → Page
pick jq sel r v p = click_span v (refresh_roster jq sel r p)

-- What a page says that has picked somebody.
click_say_picked :
    (jq : JQuery) (sel : Selector) (dwr : Dwr) (r : Room) (p q : Page) (v : Text)
    → q ≡ setup_direct_message (some v) (refresh_roster jq sel r p)
    → click_say dwr q r ≡ direct_message dwr v (whisper p) r
unfolding click_say setup_direct_message refresh_roster show_roster shown_user
click_say_picked jq sel dwr r p q v e = ap (λ x. click_say dwr x r) e

-- Where no name has a colon and every name on the roster is of letters, digits, `_` and `-` and no id of
-- the page's own elements: to say something after a click on a name that has joined and is not the
-- page's own calls `handleDirectMessage`, with the sender's name and the text, on the session under
-- which that name joined, if its id is not blank and DWR has it, on no other session, and changes
-- nothing of the room.
pub click_say-pick :
    (jq : JQuery) (sel : Selector) (dwr : Dwr) (r : Room) (p : Page) (v id : Text)
    (s : ScriptSession)
    → dwr.has_context ≡ true
    → are_plain r.users ≡ true
    → are_simple (map name_of (get_users r)) ≡ true
    → session_id v r.users ≡ some id
    → is_user p v ≡ false
    → dwr.has_text id ≡ true
    → dwr.by_id (some id) ≡ some s
    → click_say dwr (pick jq sel r v p) r
      ≡ called (codes "handleDirectMessage") (whisper p) (some s ∷ []) r
click_say-pick jq sel dwr r p v id s c plain simple joined other text known =
    let (_, _, clicked) = refresh_roster_lem jq sel r p v plain simple in
    let q = refresh_roster jq sel r p in
    let picked : pick jq sel r v p ≡ setup_direct_message (some v) q =
      clicked
      ∙ ap (λ b. if b && not (is_user p v) then setup_direct_message (some v) q else q)
          (ap is_some joined)
      ∙ ap (λ b. if not b then setup_direct_message (some v) q else q) other in
    click_say_picked jq sel dwr r p (pick jq sel r v p) v picked
    ∙ direct_message_lem dwr v (whisper p) id s r c joined text known
