-- ===== src/Chat/Reach.antt =====
-- The rooms that pages can bring about, in any order of calls, and the roster of such a room.
use mathlib.Core.List.{map-append}
use joshlong_examples.Common.{
  ◌≡◌, refl, sym, ap, ◌∙◌, inl, inr, arith, Bool, true, false, not, ◌&&◌, Option, none, some, List,
  [], ◌∷◌, ◌++◌, if◌then◌else◌, is_some, map, by_cases, append_assoc, append-nil, Option-cases,
  Text, codes, text_eq_iff, JQuery, lacks,
}
use joshlong_examples.Chat.Adapter.{Dwr, ScriptSession}
use joshlong_examples.Chat.Server.{
  Users, session_id, without, put_if_absent, Room, empty_room, send, reset, join, direct_message,
  group_message, end_session, logout, has_element, add, add_users, get_users,
}
use joshlong_examples.Chat.Users.{
  session_id-without, session_id-snoc, text_eq_refl, has_element-snoc,
}
use joshlong_examples.Chat.Page.{
  Page, Selector, name_of, refresh_roster, click_join, click_reset, click_say,
}
use joshlong_examples.Chat.Roster.{name_of-append, has_element-name_of, show_roster_lem}

-- What a page may do to the room, whatever its variables are. Only names that are allowed join.
pub data Step (allowed : Text → Bool) : Room → Room → Type 0 where
  joins :
      (dwr : Dwr) (id uid : Text) (p : Page) {r : Room}
      → allowed uid ≡ true
      → Step allowed r (click_join dwr id uid p r).1
  says : (dwr : Dwr) (p : Page) {r : Room} → Step allowed r (click_say dwr p r)
  leaves : (dwr : Dwr) (u : Text) {r : Room} → Step allowed r (logout dwr u r)
  resets : (p : Page) {r : Room} → Step allowed r (click_reset p r).1

pub data Reach (allowed : Text → Bool) : Room → Type 0 where
  opened : Reach allowed empty_room
  next : {r r' : Room} → Reach allowed r → Step allowed r r' → Reach allowed r'

-- No name has two sessions, and each is allowed.
abbrev pub are_tidy : (Text → Bool) → Users → Bool
are_tidy allowed [] = true
are_tidy allowed ((u, s) ∷ us) =
    (allowed u && not (is_some (session_id u us))) && are_tidy allowed us

are_tidy-without :
    (allowed : Text → Bool) (user : Text) (us : Users)
    → are_tidy allowed us ≡ true
    → are_tidy allowed (without user us) ≡ true
unfolding without
are_tidy-without allowed user [] h = refl
are_tidy-without allowed user ((u, s) ∷ us) h =
    ground (arith, are_tidy-without allowed user us, session_id-without user u us)

are_tidy-snoc :
    (allowed : Text → Bool) (user id : Text) (us : Users)
    → allowed user ≡ true
    → session_id user us ≡ none
    → are_tidy allowed us ≡ true
    → are_tidy allowed (us ++ (user, id) ∷ []) ≡ true
unfolding session_id
are_tidy-snoc allowed user id [] ok h t = ground arith
are_tidy-snoc allowed user id ((u, s) ∷ us) ok h t = ground (
  arith,
  are_tidy-snoc allowed user id us,
  session_id-snoc user id u us,
  text_eq_iff u user,
  text_eq_iff user u,
)

are_tidy-put_if_absent :
    (allowed : Text → Bool) (user id : Text) (us : Users)
    → allowed user ≡ true
    → is_some (session_id user us) ≡ false
    → are_tidy allowed us ≡ true
    → are_tidy allowed (put_if_absent user id us) ≡ true
unfolding put_if_absent
are_tidy-put_if_absent allowed user id us ok h t =
    by_cases (λ vs. are_tidy allowed vs ≡ true) (is_some (session_id user us)) _ _ (λ _. t)
      (λ _. are_tidy-snoc allowed user id us ok (ground arith) t)

are_tidy-join :
    (allowed : Text → Bool) (dwr : Dwr) (id user : Text) (r : Room)
    → allowed user ≡ true
    → are_tidy allowed r.users ≡ true
    → are_tidy allowed (join dwr id user r).users ≡ true
unfolding join send
are_tidy-join allowed dwr id user r ok t =
    by_cases (λ us. are_tidy allowed (put_if_absent user id us) ≡ true)
      (is_some (session_id user r.users)) _ _
      (λ _.
        are_tidy-put_if_absent allowed user id (without user r.users) ok
          (ap is_some (session_id-without user user r.users)
            ∙ ap (λ b. is_some (if b then none else session_id user r.users)) (text_eq_refl user))
          (are_tidy-without allowed user r.users t))
      (λ absent. are_tidy-put_if_absent allowed user id r.users ok absent t)

users-end_session : (o : Option ScriptSession) (r : Room) → (end_session o r).users ≡ r.users
unfolding end_session
users-end_session none r = refl
users-end_session (some s) r =
    by_cases (λ (x : Room). x.users ≡ r.users) (not s.is_invalidated) _ _ (λ _. refl) (λ _. refl)

users-click_say : (dwr : Dwr) (p : Page) (r : Room) → (click_say dwr p r).users ≡ r.users
unfolding click_say direct_message group_message send
users-click_say dwr p r = elim (Option-cases p.private_message_user) [
  | inl e ↦ ground arith
  | inr (handle, e) ↦ ground arith
]

Step-are_tidy :
    (allowed : Text → Bool) {r r' : Room}
    → Step allowed r r'
    → are_tidy allowed r.users ≡ true
    → are_tidy allowed r'.users ≡ true
unfolding click_join click_reset reset logout
Step-are_tidy allowed (joins dwr id uid p {r = r} ok) t = are_tidy-join allowed dwr id uid r ok t
Step-are_tidy allowed (says dwr p {r = r}) t = ap (are_tidy allowed) (users-click_say dwr p r) ∙ t
Step-are_tidy allowed (leaves dwr u {r = r}) t =
    ap (are_tidy allowed) (users-end_session (dwr.by_id (session_id u r.users)) r) ∙ t
Step-are_tidy allowed (resets p) t = refl

Reach-are_tidy :
    (allowed : Text → Bool) {r : Room} → Reach allowed r → are_tidy allowed r.users ≡ true
unfolding empty_room
Reach-are_tidy allowed opened = refl
Reach-are_tidy allowed (next reached step) =
    Step-are_tidy allowed step (Reach-are_tidy allowed reached)

-- No user of the list is among the names.
abbrev are_new : Users → List Text → Bool
are_new [] names = true
are_new ((u, s) ∷ us) names = not (has_element names u) && are_new us names

are_new-snoc :
    (us : Users) (names : List Text) (u : Text)
    → are_new us names ≡ true
    → session_id u us ≡ none
    → are_new us (names ++ u ∷ []) ≡ true
unfolding session_id
are_new-snoc [] names u h absent = refl
are_new-snoc ((v, s) ∷ us) names u h absent =
    ground
      (arith, are_new-snoc us names u, has_element-snoc u v names, text_eq_iff u v, text_eq_iff v u)

-- A name that is new is listed behind the others.
add-new :
    (t : Text) (usrs : List Text)
    → has_element (map name_of usrs) (name_of t) ≡ false
    → map name_of (add t usrs) ≡ map name_of usrs ++ name_of t ∷ []
unfolding add
add-new t usrs new =
    by_cases (λ l. map name_of l ≡ map name_of usrs ++ name_of t ∷ []) (has_element usrs t) _ _
      (λ known. absurd (ground (arith, has_element-name_of t usrs)))
      (λ _. map-append name_of usrs (t ∷ []))

names-users :
    (us : Users) (usrs : List Text)
    → are_tidy (lacks b':') us ≡ true
    → are_new us (map name_of usrs) ≡ true
    → map name_of (add_users us usrs) ≡ map name_of usrs ++ map (λ e. e.0) us
unfolding add_users
names-users [] usrs t new = sym (append-nil (map name_of usrs))
names-users ((u, s) ∷ us) usrs t new =
    let entry = u ++ (codes ":" ++ s) in
    let named : name_of entry ≡ u = name_of-append u s (ground arith) in
    let absent : session_id u us ≡ none = ground arith in
    let added : map name_of (add entry usrs) ≡ map name_of usrs ++ u ∷ [] =
      add-new entry usrs (ap (has_element (map name_of usrs)) named ∙ ground arith)
      ∙ ap (λ n. map name_of usrs ++ n ∷ []) named in
    names-users us (add entry usrs) (ground arith)
      (ap (are_new us) added ∙ are_new-snoc us (map name_of usrs) u (ground arith) absent)
    ∙ ap (λ l. l ++ map (λ e. e.0) us) added
    ∙ append_assoc (map name_of usrs) (u ∷ []) (map (λ e. e.0) us)

are_new-nil : (us : Users) → are_new us [] ≡ true
unfolding has_element
are_new-nil [] = refl
are_new-nil ((u, s) ∷ us) = are_new-nil us

-- In every room that pages bring about from an empty one, in any order of joins, messages, logouts and
-- resets, where no page joins under a name with a colon: no name has two sessions, and a page that
-- refreshes its roster lists the names of the room's users, each exactly once, and no others.
pub Reach-roster :
    (jq : JQuery) (sel : Selector) (p : Page) (r : Room)
    → Reach (lacks b':') r
    → (are_tidy (lacks b':') r.users ≡ true)
      × ((refresh_roster jq sel r p).handles ≡ some (map (λ e. e.0) r.users))
unfolding refresh_roster get_users
Reach-roster jq sel p r reached =
    let tidy = Reach-are_tidy (lacks b':') reached in
    (
      tidy,
      (show_roster_lem jq sel (add_users r.users []) p).0
          ∙ ap some (names-users r.users [] tidy (are_new-nil r.users)),
    )
