-- ===== src/Comet/Adapter.antt =====
-- AsyncHttpRequestHandlingMessageAdapter.java of the atmosphere application: the queue of messages.
--
-- `messageQueue` is `none` until the adapter starts. A negative threshold does what 0 does. Each call is
-- one step: what other threads add between the test of the size and `drainTo` is left out.
use joshlong_examples.Common.{
  ℕ, Bool, true, false, ◌||◌, Option, none, some, List, [], ◌∷◌, ◌++◌, ltb, leb, if◌then◌else◌,
  length, Text, codes, text_eq,
}

pub record Message (P : Type 0) : Type 0 where
  pub payload : P
  pub headers : List (Text × Text)

-- The wrapper of HttpBroadcastMessage.java; its header mapper is never read.
pub record HttpBroadcastMessage (P : Type 0) : Type 0 where
  pub message : Message P
  pub extract_payload : Bool

pub record Adapter (P : Type 0) : Type 0 where
  pub component_name : Text
  pub message_threshold : ℕ
  pub message_queue : Option (List (HttpBroadcastMessage P))
  pub has_broadcaster : Bool
  pub broadcasts : List (List (HttpBroadcastMessage P))  -- what `b.broadcast` was called with

-- What Atmosphere answers during one call: whether `lookup` finds a broadcaster, and whether the
-- broadcast or waiting for it throws.
pub record Lookup : Type 0 where
  pub finds : Bool
  pub throws : Bool

pub data Handled : Type 0 where
  handled broadcast_failed : Handled

unfoldable pub has_header : Text → List (Text × Text) → Bool
has_header name [] = false
has_header name ((k, v) ∷ hs) = text_eq k name || has_header name hs

-- `setHeaderIfAbsent(name, value)`
unfoldable pub set_header_if_absent : Text → Text → List (Text × Text) → List (Text × Text)
unfolding has_header
set_header_if_absent name value hs = if has_header name hs then hs else hs ++ (name, value) ∷ []

-- The message that goes into the queue.
unfoldable pub wrap : {P : Type 0} → Text → Message P → HttpBroadcastMessage P
unfolding set_header_if_absent
wrap name m = record {
  message = record m { headers = set_header_if_absent (codes "endpoint-path") name m.headers };
  extract_payload = true;
}

unfoldable pub ensure_broadcaster_setup : {P : Type 0} → Lookup → Adapter P → Adapter P
ensure_broadcaster_setup l a =
    if a.has_broadcaster then a else record a { has_broadcaster = l.finds }

-- What `handleMessage` does with a queue that has reached the threshold.
unfoldable pub drain :
    {P : Type 0} → Lookup → List (HttpBroadcastMessage P) → Adapter P → Handled × Adapter P
drain l q a =
    if a.has_broadcaster
    then (if ltb 0 (length q)
        then (
          if l.throws then broadcast_failed else handled,
          record a { message_queue = some []; broadcasts = a.broadcasts ++ q ∷ [] },
        )
        else (handled, record a { message_queue = some [] }))
    else (handled, record a { message_queue = some q })

-- What `handleMessage` does once the message is in the queue.
unfoldable pub enqueue :
    {P : Type 0} → Lookup → List (HttpBroadcastMessage P) → Adapter P → Handled × Adapter P
unfolding ensure_broadcaster_setup drain
enqueue l q a =
    if leb a.message_threshold (length q)
    then drain l q (ensure_broadcaster_setup l a)
    else (handled, record a { message_queue = some q })

unfoldable pub handle_message : {P : Type 0} → Lookup → Message P → Adapter P → Handled × Adapter P
unfolding wrap enqueue
handle_message l m a = elim a.message_queue [
  | none ↦ (broadcast_failed, a)
  | some q ↦ enqueue l (q ++ wrap a.component_name m ∷ []) a
]

unfoldable pub do_start : {P : Type 0} → Adapter P → Adapter P
do_start a = record a { message_queue = some [] }
