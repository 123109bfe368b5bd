-- ===== src/Chat/Users.antt =====
-- The laws of the map of users, and what the operations of the room make of it.
use joshlong_examples.Common.{
  ◌≡◌, refl, ap, ◌∙◌, inl, inr, arith, true, ◌||◌, none, some, List, [], ◌∷◌, ◌++◌, if◌then◌else◌,
  is_some, Bool-cases, Option-cases, Text, text_eq, text_eq_iff,
}
use joshlong_examples.Chat.Adapter.{Dwr}
use joshlong_examples.Chat.Server.{
  Users, session_id, without, put_if_absent, Room, send, join, has_element, add,
}

pub session_id-without :
    (user v : Text) (us : Users)
    → session_id v (without user us) ≡ (if text_eq user v then none else session_id v us)
unfolding session_id without
session_id-without user v [] = ground arith
session_id-without user v ((u, s) ∷ us) =
    ground
      (arith, session_id-without user v us, text_eq_iff u user, text_eq_iff u v, text_eq_iff user v)

pub session_id-snoc :
    (user id v : Text) (us : Users)
    → session_id user us ≡ none
    → session_id v (us ++ (user, id) ∷ []) ≡ (if text_eq user v then some id else session_id v us)
unfolding session_id
session_id-snoc user id v [] h = refl
session_id-snoc user id v ((u, s) ∷ us) h =
    ground
      (arith, session_id-snoc user id v us, text_eq_iff u user, text_eq_iff u v, text_eq_iff user v)

pub text_eq_refl : (t : Text) → text_eq t t ≡ true
text_eq_refl t = (text_eq_iff t t).1 refl

-- The session under a name after a join: that of the page that joined under this name, else the one
-- before.
pub session_id-join :
    (dwr : Dwr) (id user v : Text) (r : Room)
    → session_id v (join dwr id user r).users
      ≡ (if text_eq user v then some id else session_id v r.users)
unfolding join send put_if_absent
session_id-join dwr id user v r = elim (Option-cases (session_id user r.users)) [
  | inl e ↦ rw (e, is_some, e, is_some) (session_id-snoc user id v r.users e)
  | inr (s, e) ↦
      let gone : session_id user (without user r.users) ≡ none =
        session_id-without user user r.users
        ∙ ap (λ b. if b then none else session_id user r.users) (text_eq_refl user) in
      rw (e, is_some, gone, is_some)
        (session_id-snoc user id v (without user r.users) gone
          ∙ ground (arith, session_id-without user v r.users))
]

pub has_element-snoc :
    (t v : Text) (xs : List Text) → has_element (xs ++ t ∷ []) v ≡ (has_element xs v || text_eq t v)
unfolding has_element
has_element-snoc t v [] = ground arith
has_element-snoc t v (x ∷ xs) = ground (arith, has_element-snoc t v xs)

pub has_element-add :
    (t v : Text) (xs : List Text) → has_element (add t xs) v ≡ (has_element xs v || text_eq t v)
unfolding add
has_element-add t v xs = elim (Bool-cases (has_element xs t)) [
  | inl k ↦ rw k (ground (arith, text_eq_iff t v))
  | inr n ↦ rw n (has_element-snoc t v xs)
]
