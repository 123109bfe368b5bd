-- ===== src/Chat/Server.antt =====
-- Chat.java: the room, and the wiring of its channels in DwrConfiguration.java.
--
-- `users`, a ConcurrentHashMap, is an association list, and a set of texts a list with no text twice;
-- their order stands for the order of iteration, which Java leaves open. Each operation is one step:
-- the locks of the source hold over the parts that matter here.
use joshlong_examples.Common.{
  Bool, false, not, ◌||◌, Option, none, some, List, [], ◌∷◌, ◌++◌, if◌then◌else◌, is_some, Text,
  codes, text_eq,
}
use joshlong_examples.Chat.Adapter.{ScriptSession, Dwr, Message, Call, handle_message}

abbrev pub Users : Type 0
Users = List (Text × Text)

-- `users.get(user)`
unfoldable pub session_id : Text → Users → Option Text
session_id user [] = none
session_id user ((u, s) ∷ us) =
    let rest = session_id user us in if text_eq u user then some s else rest

-- `users.remove(user)`
unfoldable pub without : Text → Users → Users
without user [] = []
without user ((u, s) ∷ us) =
    let rest = without user us in if text_eq u user then rest else (u, s) ∷ rest

-- `users.putIfAbsent(user, id)`
unfoldable pub put_if_absent : Text → Text → Users → Users
put_if_absent user id us = if is_some (session_id user us) then us else us ++ (user, id) ∷ []

-- What a room has done besides: function calls on pages, exceptions of an adapter, which the caller
-- gets, and sessions it has ended.
pub data Effect : Type 0 where
  calls : List Call → Effect
  raises : Effect
  invalidates : ScriptSession → Effect

pub record Room : Type 0 where
  pub users : Users
  pub chat_messages : List Text
  pub effects : List Effect

unfoldable pub empty_room : Room
empty_room = record { users = []; chat_messages = []; effects = [] }

-- The three channels, each with one adapter behind it.
pub data Channel : Type 0 where
  roster_channel message_channel dm_channel : Channel

-- `setDefaultCallbackFunctionName` of the adapter of a channel.
unfoldable pub default_callback : Channel → Text
default_callback roster_channel = codes "handleRoster"
default_callback message_channel = codes "handleMessage"
default_callback dm_channel = codes "handleDirectMessage"

unfoldable pub effect_of : Option (List Call) → Effect
effect_of none = raises
effect_of (some cs) = calls cs

-- `messagingTemplate.send(channel, message)`: the channels hand over at once. Where it throws, so does
-- the operation of the room, of which it is the last statement.
unfoldable pub send : Dwr → Channel → Message → Room → Room
unfolding effect_of
send dwr channel message r = record r {
  effects = r.effects ++ effect_of (handle_message dwr (default_callback channel) message) ∷ [];
}

-- `MessageBuilder.withPayload(payload)` with the target, where one is set.
unfoldable pub with_payload : Text → Option Text → Message
with_payload payload target = record { payload = payload; function_name = none; target = target }

unfoldable pub reset : Room → Room
reset r = record r { users = []; chat_messages = [] }

-- `join(user)` from a page whose session has an id.
unfoldable pub join : Dwr → Text → Text → Room → Room
join dwr id user r =
    let us = if is_some (session_id user r.users) then without user r.users else r.users in
    send dwr roster_channel (with_payload user none) (record r { users = put_if_absent user id us })

unfoldable pub has_element : List Text → Text → Bool
has_element [] t = false
has_element (x ∷ xs) t = text_eq x t || has_element xs t

-- `usrs.add(t)`
unfoldable pub add : Text → List Text → List Text
add t xs = if has_element xs t then xs else xs ++ t ∷ []

-- The loop of `getUsers`.
unfoldable pub add_users : Users → List Text → List Text
add_users [] usrs = usrs
add_users ((u, s) ∷ us) usrs = add_users us (add (u ++ (codes ":" ++ s)) usrs)

unfoldable pub get_users : Room → List Text
get_users r = add_users r.users []

unfoldable pub direct_message : Dwr → Text → Text → Room → Room
direct_message dwr user msg r = send dwr dm_channel (with_payload msg (session_id user r.users)) r

unfoldable pub get_chat_messages : Room → List Text
get_chat_messages r = r.chat_messages

unfoldable pub group_message : Dwr → Text → Room → Room
group_message dwr msg r =
    send dwr message_channel (with_payload msg none)
      (record r { chat_messages = r.chat_messages ++ msg ∷ [] })

unfoldable pub end_session : Option ScriptSession → Room → Room
end_session none r = r
end_session (some s) r =
    if not s.is_invalidated then record r { effects = r.effects ++ invalidates s ∷ [] } else r

-- `logout(u)`
unfoldable pub logout : Dwr → Text → Room → Room
logout dwr u r = end_session (dwr.by_id (session_id u r.users)) r
