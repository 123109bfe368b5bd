-- ===== src/Comet/Broadcaster.antt =====
-- HttpMessageBroadcaster.java: an event delivered to one suspended resource.
use joshlong_examples.Common.{
  Bool, false, Option, none, some, List, [], ◌∷◌, if◌then◌else◌, get_or, Text,
}
use joshlong_examples.Comet.Mapper.{
  Converter, Written, written, conversion_failed, no_converter, write_message,
}
use joshlong_examples.Comet.Adapter.{HttpBroadcastMessage}

-- What an event may carry.
pub data Item (P : Type 0) : Type 0 where
  broadcast_message : HttpBroadcastMessage P → Item P
  other : Item P

pub data EventMessage (P : Type 0) : Type 0 where
  list : List (Item P) → EventMessage P
  single : Item P → EventMessage P

-- A suspended resource: what its request accepts, its attribute RESUME_ON_BROADCAST, and how its
-- response answers.
pub record Resource (M : Type 0) : Type 0 where
  pub accept : List M
  pub resume_on_broadcast : Option Bool
  pub has_output_stream : Bool
  pub takes_bytes : Bool

-- `super.broadcast`, an exception, or what was written and whether the resource was resumed.
pub data Delivery : Type 0 where
  delegated class_cast messaging_exception : Delivery
  delivered : Text → Bool → Delivery

unfoldable pub messages_of : {P : Type 0} → EventMessage P → Option (List (Item P))
messages_of (list []) = none
messages_of (list (other ∷ is)) = none
messages_of (list (broadcast_message m ∷ is)) = some (broadcast_message m ∷ is)
messages_of (single (broadcast_message m)) = some (broadcast_message m ∷ [])
messages_of (single other) = none

-- `mergeMessagesForBroadcast`; `none` is a ClassCastException.
unfoldable pub merge_messages : {P : Type 0} → List (Item P) → Option (List P)
merge_messages [] = some []
merge_messages (other ∷ is) = none
merge_messages (broadcast_message m ∷ is) = elim (merge_messages is) [
  | none ↦ none
  | some ps ↦ some (m.message.payload ∷ ps)
]

-- What `broadcast` does once the content is written to the wrapper of the response.
unfoldable pub finish_broadcast : {M : Type 0} → Resource M → Written → Delivery
finish_broadcast r conversion_failed = messaging_exception
finish_broadcast r no_converter = messaging_exception
finish_broadcast r (written t) =
    if r.takes_bytes then delivered t (get_or r.resume_on_broadcast false) else messaging_exception

unfoldable pub broadcast :
    {M P : Type 0} → M → List (Converter M (List P) P) → Resource M → EventMessage P → Delivery
unfolding messages_of merge_messages finish_broadcast
broadcast json converters r event = elim (messages_of event) [
  | none ↦ delegated
  | some is ↦ elim (merge_messages is) [
    | none ↦ class_cast
    | some payloads ↦
        if r.has_output_stream
        then finish_broadcast r (write_message json converters r.accept payloads)
        else messaging_exception
  ]
]
