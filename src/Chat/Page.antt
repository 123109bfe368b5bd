-- ===== src/Chat/Page.antt =====
-- dwr.html: the script of the chat page.
--
-- The page's fields are its variables and what it has written into the document. A call of the
-- service gives the room after it; the function that the page passes for the answer is a function of
-- its own here, since it runs later. What `$('#' + name)` finds is the record `Selector`; the styles
-- that it sets are left out. A variable that is not set yet is `none`; in a text it is
-- `undefined`.
use joshlong_examples.Common.{
  ℕ, leb, ◌≡◌, ◌&&◌, ◌||◌, map, nonempty, Bool, true, false, not, Option, none, some, List, [], ◌∷◌,
  ◌++◌, ◌==◌, if◌then◌else◌, get_or, Text, codes, text_eq, JQuery,
}
use joshlong_examples.Chat.Adapter.{Dwr}
use joshlong_examples.Chat.Server.{
  Room, has_element, get_users, get_chat_messages, direct_message, group_message, join, reset,
}

-- The ids of the page's own elements.
unfoldable pub own_ids : List Text
own_ids =
    codes "welcome"
    ∷ codes "log"
    ∷ codes "join"
    ∷ codes "uid"
    ∷ codes "joinBtn"
    ∷ codes "chat"
    ∷ codes "roster"
    ∷ codes "transcript"
    ∷ codes "message"
    ∷ codes "say"
    ∷ codes "reset"
    ∷ codes "dm"
    ∷ []

-- A letter, a digit, `_` or `-`.
abbrev pub is_word : ℕ → Bool
is_word c =
    (leb 97 c && leb c 122)
    || (leb 65 c && leb c 90)
    || (leb 48 c && leb c 57)
    || c == b'_'
    || c == b'-'

abbrev pub are_words : Text → Bool
are_words [] = true
are_words (c ∷ cs) = is_word c && are_words cs

-- A name that is an id of its own in a selector, and of no other element of the page.
abbrev pub is_simple : Text → Bool
is_simple t = nonempty t && are_words t && not (has_element own_ids t)

-- jQuery's `$('#' + name)` on a page whose roster has spans with some ids: the ids of the spans it
-- finds; `none` where it throws. A name of letters, digits, `_` and `-` finds the span with that id;
-- on others, which are selectors of other kinds or none, nothing is known.
pub record Selector : Type 0 where
  pub select : List Text → Text → Option (List Text)
  pub select_lem :
      (ids : List Text) (name : Text)
      → is_simple name ≡ true
      → has_element ids name ≡ true
      → select ids name ≡ some (name ∷ [])

pub record Page : Type 0 where
  pub dm : Text
  pub private_message_user : Option Text
  pub user : Option Text
  pub msg_field : Text
  pub transcript : Text
  pub roster : Text
  pub handles : Option (List Text)
  pub clickable : List (Text × Text)  -- the handlers: a span of the roster, and the name it picks
  pub chat_visible : Bool
  pub join_visible : Bool
  pub welcome : Text

-- The variables when the document is ready, before the first answers: `joinRegion.show()` at the end
-- of the handler undoes its `hide()`.
unfoldable pub ready : Page
ready = record {
  dm = [];
  private_message_user = none;
  user = none;
  msg_field = [];
  transcript = [];
  roster = [];
  handles = none;
  clickable = [];
  chat_visible = false;
  join_visible = true;
  welcome = [];
}

-- A variable in a text.
unfoldable pub shown_user : Page → Text
shown_user p = get_or p.user (codes "undefined")

unfoldable pub handle_direct_message : Text → Page → Page
handle_direct_message msg p = record p { dm = p.dm ++ (codes "<div> " ++ (msg ++ codes " </div>")) }

unfoldable pub setup_direct_message : Option Text → Page → Page
setup_direct_message handle p = record p { private_message_user = handle }

unfoldable pub undo_direct_message : Page → Page
undo_direct_message p = setup_direct_message none (record p { private_message_user = none })

-- `u.split(':')[0]`
unfoldable pub name_of : Text → Text
name_of [] = []
name_of (c ∷ cs) = let rest = c ∷ name_of cs in if c == b':' then [] else rest

-- `usr == user`, where `user` may be undefined.
unfoldable pub is_user : Page → Text → Bool
is_user p usr = elim p.user [ none ↦ false | some u ↦ text_eq usr u ]

unfoldable pub roster_line : Page → Text → Text
roster_line p usr =
    codes "<span "
    ++ ((if is_user p usr then codes "class=\"me\"" else codes "class=\"member\" ")
        ++ (codes " id=\"" ++ (usr ++ (codes "\">" ++ (usr ++ codes "</span><br/> ")))))

unfoldable pub roster_html : Page → List Text → Text
roster_html p [] = []
roster_html p (usr ∷ usrs) = roster_line p usr ++ roster_html p usrs

-- The second loop of `refreshRoster`, on a roster with these ids. A selector that throws ends it.
unfoldable pub bind_clicks : Selector → Page → List Text → List Text → List (Text × Text)
bind_clicks sel p ids [] = []
bind_clicks sel p ids (v ∷ vs) =
    let rest = bind_clicks sel p ids vs in
    if is_user p v
    then rest
    else elim (sel.select ids v) [ none ↦ [] | some spans ↦ map (λ t. (t, v)) spans ++ rest ]

-- The handlers of one span, in the order in which they were bound.
unfoldable pub run_clicks : List (Text × Text) → Text → Page → Page
run_clicks [] t p = p
run_clicks ((u, v) ∷ hs) t p =
    run_clicks hs t (if text_eq u t then setup_direct_message (some v) p else p)

-- A click on the span of the roster with an id, the first one where several have it.
unfoldable pub click_span : Text → Page → Page
unfolding run_clicks
click_span t p = run_clicks p.clickable t p

-- The function that `refreshRoster` passes to `getUsers`.
unfoldable pub show_roster : JQuery → Selector → List Text → Page → Page
show_roster jq sel usrs p =
    let names = jq.map Text Text usrs (λ u. some (name_of u)) in
    record p {
      handles = some names;
      roster = roster_html p names;
      clickable = bind_clicks sel p names names;
    }

unfoldable pub refresh_roster : JQuery → Selector → Room → Page → Page
refresh_roster jq sel r p = show_roster jq sel (get_users r) p

-- The loop of `refreshChatTranscript`.
unfoldable pub transcript_lines : List Text → Text
transcript_lines [] = []
transcript_lines (l ∷ ls) = l ++ (codes "<br/>" ++ transcript_lines ls)

unfoldable pub refresh_chat_transcript : Room → Page → Page
refresh_chat_transcript r p = record p {
  transcript = codes "<div>" ++ (transcript_lines (get_chat_messages r) ++ codes "</div>");
}

-- `joinBtn.click`, and what runs when `join` has answered.
unfoldable pub click_join : Dwr → Text → Text → Page → Room → Page × Room
click_join dwr id uid p r =
    (record p { user = some uid; welcome = codes "Welcome " ++ uid }, join dwr id uid r)

unfoldable pub joined : Page → Page
joined p = record p { join_visible = false; chat_visible = true }

-- `resetBtn.click`, and what runs when `reset` has answered.
unfoldable pub click_reset : Page → Room → Page × Room
click_reset p r = (p, reset r)

unfoldable pub was_reset : JQuery → Selector → Room → Page → Page
was_reset jq sel r p = record (refresh_roster jq sel r (refresh_chat_transcript r p)) {
  chat_visible = false;
  join_visible = true;
}

-- `sayBtn.click`, and what runs when the service has answered.
unfoldable pub click_say : Dwr → Page → Room → Room
click_say dwr p r = elim p.private_message_user [
  | none ↦ group_message dwr (shown_user p ++ (codes ": " ++ p.msg_field)) r
  | some handle ↦
      direct_message dwr handle (codes "from " ++ (shown_user p ++ (codes ":" ++ p.msg_field))) r
]

unfoldable pub said_directly : Page → Page
said_directly p = undo_direct_message p

unfoldable pub said_to_all : Page → Page
said_to_all p = undo_direct_message (record p { msg_field = [] })
