-- ===== src/Chat/Roster.antt =====
-- The roster of the page against the users of the room, and what the page sends to a name on it.
use mathlib.Core.List.{map-append}
use joshlong_examples.Common.{
  ◌≡◌, refl, sym, ap, ◌∙◌, inl, inr, arith, Bool, true, not, ◌&&◌, ◌||◌, some, List, [], ◌∷◌, ◌++◌,
  is_some, map, Bool-cases, by_cases, if◌then◌else◌, Text, codes, text_eq, text_eq_iff, JQuery,
  lacks, filter_map,
}
use joshlong_examples.Chat.Server.{Users, session_id, Room, has_element, add, add_users, get_users}
use joshlong_examples.Chat.Users.{has_element-snoc, text_eq_refl}
use joshlong_examples.Chat.Page.{
  Page, Selector, is_simple, name_of, is_user, setup_direct_message, bind_clicks, run_clicks,
  click_span, show_roster, refresh_roster,
}

-- No name has a colon.
abbrev pub are_plain : Users → Bool
are_plain [] = true
are_plain ((u, s) ∷ us) = lacks b':' u && are_plain us

pub name_of-append : (u rest : Text) → lacks b':' u ≡ true → name_of (u ++ (codes ":" ++ rest)) ≡ u
unfolding name_of
name_of-append [] rest h = refl
name_of-append (c ∷ cs) rest h = ground (arith, name_of-append cs rest)

pub has_element-name_of :
    (t : Text) (xs : List Text)
    → has_element xs t ≡ true
    → has_element (map name_of xs) (name_of t) ≡ true
unfolding has_element
has_element-name_of t [] h = h
has_element-name_of t (x ∷ xs) h =
    ground (arith, has_element-name_of t xs, text_eq_iff x t, text_eq_iff (name_of x) (name_of t))

-- Where it is known what an element's name is, `add` adds that name.
names-add :
    (t name v : Text) (xs : List Text)
    → name_of t ≡ name
    → has_element (map name_of (add t xs)) v ≡ (has_element (map name_of xs) v || text_eq name v)
unfolding add
names-add t name v xs e = elim (Bool-cases (has_element xs t)) [
  | inl k ↦
      let known : has_element (map name_of xs) name ≡ true = rw e at (has_element-name_of t xs k) in
      rw k (ground (arith, text_eq_iff name v))
  | inr n ↦ rw n (
      ap (λ l. has_element l v) (map-append name_of xs (t ∷ []))
      ∙ has_element-snoc (name_of t) v (map name_of xs)
      ∙ ap (λ u. has_element (map name_of xs) v || text_eq u v) e)
]

names-add_users :
    (us : Users) (usrs : List Text) (v : Text)
    → are_plain us ≡ true
    → has_element (map name_of (add_users us usrs)) v
      ≡ (has_element (map name_of usrs) v || is_some (session_id v us))
unfolding add_users session_id
names-add_users [] usrs v h = ground arith
names-add_users ((u, s) ∷ us) usrs v h = ground (
  arith,
  names-add_users us (add (u ++ (codes ":" ++ s)) usrs) v,
  names-add (u ++ (codes ":" ++ s)) u v usrs (name_of-append u s (ground arith)),
)

filter_map-some : (xs : List Text) → filter_map (λ u. some (name_of u)) xs ≡ map name_of xs
filter_map-some [] = refl
filter_map-some (x ∷ xs) = ap (◌∷◌ (name_of x)) (filter_map-some xs)

is_user_same : (p : Page) (w v : Text) → text_eq w v ≡ true → is_user p w ≡ is_user p v
is_user_same p w v h = ap (is_user p) ((text_eq_iff w v).0 h)

-- All names are simple ones.
abbrev pub are_simple : List Text → Bool
are_simple [] = true
are_simple (v ∷ vs) = is_simple v && are_simple vs

-- The names that are not the page's own.
abbrev others : Page → List Text → List Text
others p [] = []
others p (v ∷ vs) = if is_user p v then others p vs else v ∷ others p vs

has_element-others :
    (p : Page) (vs : List Text) (v : Text)
    → has_element (others p vs) v ≡ (has_element vs v && not (is_user p v))
unfolding has_element
has_element-others p [] v = refl
has_element-others p (w ∷ vs) v = ground (arith, has_element-others p vs v, is_user_same p w v)

bind_clicks-others :
    (sel : Selector) (p : Page) (ids vs : List Text)
    → are_simple vs ≡ true
    → ((v : Text) → has_element vs v ≡ true → has_element ids v ≡ true)
    → bind_clicks sel p ids vs ≡ map (λ v. (v, v)) (others p vs)
unfolding bind_clicks has_element
bind_clicks-others sel p ids [] h sub = refl
bind_clicks-others sel p ids (v ∷ vs) h sub =
    let found = sel.select_lem ids v (ground arith) (sub v (ground (arith, text_eq_refl v))) in
    let rest = bind_clicks-others sel p ids vs (ground arith) (λ w e. sub w (ground arith)) in
    rw (found, rest)
      (by_cases (λ (l : List (Text × Text)). l ≡ map (λ v. (v, v)) (others p (v ∷ vs)))
        (is_user p v) _ _ (λ e. rw e refl) (λ e. rw e refl))

run_clicks-map :
    (vs : List Text) (t : Text) (p : Page)
    → run_clicks (map (λ v. (v, v)) vs) t p
      ≡ (if has_element vs t then setup_direct_message (some t) p else p)
unfolding run_clicks has_element setup_direct_message
run_clicks-map [] t p = refl
run_clicks-map (v ∷ vs) t p = elim (Bool-cases (text_eq v t)) [
  | inl e ↦
      let same : v ≡ t = (text_eq_iff v t).0 e in
      let q = setup_direct_message (some t) p in
      let first : run_clicks (map (λ v. (v, v)) (v ∷ vs)) t p
          ≡ run_clicks (map (λ v. (v, v)) vs) t q =
        ap
          (λ b.
            run_clicks (map (λ v. (v, v)) vs) t (if b then setup_direct_message (some v) p else p))
          e
        ∙ ap (λ u. run_clicks (map (λ v. (v, v)) vs) t (setup_direct_message (some u) p)) same in
      first
      ∙ run_clicks-map vs t q
      ∙ by_cases (λ (x : Page). x ≡ q) (has_element vs t) _ _ (λ _. refl) (λ _. refl)
      ∙ ap (λ b. if b || has_element vs t then setup_direct_message (some t) p else p) (sym e)
  | inr n ↦
      ap
        (λ b.
          run_clicks (map (λ v. (v, v)) vs) t (if b then setup_direct_message (some v) p else p))
        n
      ∙ run_clicks-map vs t p
      ∙ ap (λ b. if b || has_element vs t then setup_direct_message (some t) p else p) (sym n)
]

pub show_roster_lem :
    (jq : JQuery) (sel : Selector) (usrs : List Text) (p : Page)
    → (show_roster jq sel usrs p).handles ≡ some (map name_of usrs)
      × ((show_roster jq sel usrs p).clickable
          ≡ bind_clicks sel p (map name_of usrs) (map name_of usrs))
unfolding show_roster
show_roster_lem jq sel usrs p =
    let names = jq.map_lem Text Text usrs (λ u. some (name_of u)) ∙ filter_map-some usrs in
    (ap some names, ap (λ l. bind_clicks sel p l l) names)

-- A click on a name of a roster of simple names picks it, if it is not the page's own, and else does
-- nothing.
pub click_span-show_roster :
    (jq : JQuery) (sel : Selector) (usrs : List Text) (p : Page) (v : Text)
    → are_simple (map name_of usrs) ≡ true
    → let q = show_roster jq sel usrs p in
      click_span v q ≡ (
        if has_element (map name_of usrs) v && not (is_user p v)
        then setup_direct_message (some v) q
        else q)
unfolding click_span
click_span-show_roster jq sel usrs p v simple =
    let q = show_roster jq sel usrs p in
    let names = map name_of usrs in
    ap (λ hs. run_clicks hs v q)
      ((show_roster_lem jq sel usrs p).1 ∙ bind_clicks-others sel p names names simple (λ w e. e))
    ∙ run_clicks-map (others p names) v q
    ∙ ap (λ b. if b then setup_direct_message (some v) q else q) (has_element-others p names v)

-- Where no name has a colon and every name on the roster is simple, that is of letters, digits, `_` and
-- `-` and no id of the page's own elements: a page that refreshes its roster lists exactly the names
-- that have joined, and a click on a name picks it where it has joined and is not the page's own, and
-- else does nothing.
pub refresh_roster_lem :
    (jq : JQuery) (sel : Selector) (r : Room) (p : Page) (v : Text)
    → are_plain r.users ≡ true
    → are_simple (map name_of (get_users r)) ≡ true
    → let names = map name_of (get_users r) in
      let q = refresh_roster jq sel r p in
      (q.handles ≡ some names)
      × (has_element names v ≡ is_some (session_id v r.users))
      × (click_span v q ≡ (
          if is_some (session_id v r.users) && not (is_user p v)
          then setup_direct_message (some v) q
          else q))
unfolding refresh_roster get_users has_element
refresh_roster_lem jq sel r p v plain simple =
    let names = names-add_users r.users [] v plain ∙ ground arith in
    let q = show_roster jq sel (add_users r.users []) p in
    (
      (show_roster_lem jq sel (add_users r.users []) p).0,
      names,
      click_span-show_roster jq sel (add_users r.users []) p v simple
          ∙ ap (λ b. if b && not (is_user p v) then setup_direct_message (some v) q else q) names,
    )
