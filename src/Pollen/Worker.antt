-- ===== src/Pollen/Worker.antt =====
-- jquery.hive.pollen.js, `worker` and `identify`: what a worker posts and how it receives.
--
-- Messages are those of jquery.hive.js; `JSON.stringify` and `JSON.parse` are left out. A property
-- that is missing is `none`; an undefined identity is left out of the text by `JSON.stringify`.
use joshlong_examples.Common.{
  ℕ, zero, Bool, true, false, Option, none, some, List, [], ◌∷◌, ◌++◌, if◌then◌else◌, truthy,
  nonempty,
}
use joshlong_examples.Hive.Defs.{Message, Sent, plain, object}

pub record Worker : Type 0 where
  pub identity : Option ℕ
  pub posted : List Message
  pub received : List Message  -- what the function of `receive` was called with

unfoldable pub fresh_worker : Worker
fresh_worker = record { identity = some 0; posted = []; received = [] }

-- `identify()`
unfoldable pub identify : Worker → Option ℕ
identify w = w.identity

-- `isDef(message)`: an object is defined, a text if it is not empty.
unfoldable pub is_message : Sent → Bool
is_message (plain t) = nonempty t
is_message (object m) = true

-- The message that `send` posts.
unfoldable pub outgoing : Worker → Sent → Message
outgoing w (plain t) = record {
  message = t;
  send_to = none;
  send_from = none;
  worker_id = w.identity;
}
outgoing w (object m) = record m {
  send_from = if truthy m.send_to then w.identity else m.send_from;
  worker_id = w.identity;
}

unfoldable pub send : Sent → Worker → Worker
unfolding is_message outgoing
send message w =
    if is_message message then record w { posted = w.posted ++ outgoing w message ∷ [] } else w

-- `reply`
unfoldable pub reply : Sent → Worker → Worker
reply message w = send message w

-- `Pollen.identity == ''`, which holds of 0.
unfoldable pub lacks_identity : Option ℕ → Bool
lacks_identity (some zero) = true
lacks_identity _ = false

-- The listener of `receive`, on a parsed message.
unfoldable pub receive : Message → Worker → Worker
unfolding lacks_identity
receive m w = record w {
  identity = if lacks_identity w.identity then m.worker_id else w.identity;
  received = w.received ++ m ∷ [];
}

unfoldable pub receive_all : List Message → Worker → Worker
unfolding receive
receive_all [] w = w
receive_all (m ∷ ms) w = receive_all ms (receive m w)
