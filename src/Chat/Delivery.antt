-- ===== src/Chat/Delivery.antt =====
-- Who gets a direct message.
use joshlong_examples.Common.{
  ◌≡◌, refl, sym, inl, inr, Option-cases, ap, ◌∙◌, Bool, true, false, not, Option, none, some, List,
  [], ◌∷◌, ◌++◌, if◌then◌else◌, map, Text, codes,
}
use joshlong_examples.Chat.Adapter.{
  Dwr, ScriptSession, callback_function, target_sessions, add_function_call, handle_message,
}
use joshlong_examples.Chat.Server.{
  session_id, Room, calls, raises, effect_of, default_callback, with_payload, send, direct_message,
  get_users, logout, end_session, add_users, invalidates,
}

-- The room after a call on some sessions.
abbrev pub called : Text → Text → List (Option ScriptSession) → Room → Room
called function param sessions r = record r {
  effects =
      r.effects
      ++ calls (record { function = function; param = param; sessions = sessions } ∷ []) ∷ [];
}

-- A direct message to a name that has joined, whose session id is no blank text and is known to DWR,
-- calls `handleDirectMessage` with the message on that session alone, and changes nothing else.
pub direct_message_lem :
    (dwr : Dwr) (user msg id : Text) (s : ScriptSession) (r : Room)
    → dwr.has_context ≡ true
    → session_id user r.users ≡ some id
    → dwr.has_text id ≡ true
    → dwr.by_id (some id) ≡ some s
    → direct_message dwr user msg r ≡ called (codes "handleDirectMessage") msg (some s ∷ []) r
unfolding direct_message send effect_of handle_message add_function_call callback_function
    target_sessions with_payload default_callback
direct_message_lem dwr user msg id s r c e t known =
    simp (c, e, t, known, dwr.refuses_sessions (s ∷ []))

-- Where DWR does not know the session id, the call throws, and nobody gets the message.
pub direct_message-lost :
    (dwr : Dwr) (user msg id : Text) (r : Room)
    → dwr.has_context ≡ true
    → session_id user r.users ≡ some id
    → dwr.has_text id ≡ true
    → dwr.by_id (some id) ≡ none
    → direct_message dwr user msg r ≡ record r { effects = r.effects ++ raises ∷ [] }
unfolding direct_message send effect_of handle_message add_function_call callback_function
    target_sessions with_payload default_callback
direct_message-lost dwr user msg id r c e t lost = simp (c, e, t, lost, dwr.refuses_null)

-- A direct message to a name that has not joined calls `handleDirectMessage` with the message on all
-- sessions that there are.
pub direct_message-unknown :
    (dwr : Dwr) (user msg : Text) (r : Room)
    → dwr.has_context ≡ true
    → session_id user r.users ≡ none
    → direct_message dwr user msg r
      ≡ called (codes "handleDirectMessage") msg (map some dwr.all_sessions) r
unfolding direct_message send effect_of handle_message add_function_call callback_function
    target_sessions with_payload default_callback
direct_message-unknown dwr user msg r c e = simp (c, e, dwr.refuses_sessions dwr.all_sessions)

logout-users :
    (dwr : Dwr) (u : Text) (r : Room)
    → ((logout dwr u r).users ≡ r.users) × ((logout dwr u r).chat_messages ≡ r.chat_messages)
unfolding logout end_session
logout-users dwr u r = go (dwr.by_id (session_id u r.users))
  where
    go :
        (o : Option ScriptSession)
        → ((end_session o r).users ≡ r.users) × ((end_session o r).chat_messages ≡ r.chat_messages)
    go none = (refl, refl)
    go (some s) = either (not s.is_invalidated)
      where
        either :
            (b : Bool)
            → let t : Room =
                if b then record r { effects = r.effects ++ invalidates s ∷ [] } else r in
              (t.users ≡ r.users) × (t.chat_messages ≡ r.chat_messages)
        either true = (refl, refl)
        either false = (refl, refl)

-- The room after a message for the session that DWR finds: an exception, where it finds none.
abbrev pub messaged : Text → Option ScriptSession → Room → Room
messaged msg none r = record r { effects = r.effects ++ raises ∷ [] }
messaged msg (some s) r = called (codes "handleDirectMessage") msg (some s ∷ []) r

-- `logout` of a name that has joined leaves it on the roster: the users stay. A direct message to it
-- afterwards still goes to the session that it joined with, alone, where DWR has it; where DWR has none
-- of that id any more the call throws, and no page is called.
pub direct_message-logout :
    (dwr dwr' : Dwr) (user msg id : Text) (r : Room)
    → dwr'.has_context ≡ true
    → session_id user r.users ≡ some id
    → dwr'.has_text id ≡ true
    → let r' = logout dwr user r in
      (get_users r' ≡ get_users r)
      × (direct_message dwr' user msg r' ≡ messaged msg (dwr'.by_id (some id)) r')
unfolding get_users
direct_message-logout dwr dwr' user msg id r c e t =
    let (same, _) = logout-users dwr user r in
    let still : session_id user (logout dwr user r).users ≡ some id =
      ap (session_id user) same ∙ e in
    (
      ap (λ us. add_users us []) same,
      (elim (Option-cases (dwr'.by_id (some id))) [
        | inl lost ↦
            direct_message-lost dwr' user msg id (logout dwr user r) c still t lost
            ∙ ap (λ o. messaged msg o (logout dwr user r)) (sym lost)
        | inr (s, known) ↦
            direct_message_lem dwr' user msg id s (logout dwr user r) c still t known
            ∙ ap (λ o. messaged msg o (logout dwr user r)) (sym known)
      ]),
    )
