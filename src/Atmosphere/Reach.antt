-- ===== src/Atmosphere/Reach.antt =====
-- jquery.atmosphere.js in use: the calls of the page and of the browser in any order, and what
-- holds after them.
use joshlong_examples.Common.{ℕ, Bool, Option, none, get_or, get_elem?, Text, JQuery}
use joshlong_examples.Atmosphere.Defs.{
  Browser, Request, RequestOptions, as_options, Connection, aborted, State, initial, add_callback,
}
use joshlong_examples.Atmosphere.Transport.{
  close_suspended_connection, Reading, on_ready_state, on_error, opera_callback, streaming_callback,
  SocketEvent, on_socket,
}
use joshlong_examples.Atmosphere.Publish.{subscribe, publish, on_timeout, push}
use joshlong_examples.Atmosphere.Limits.{IsBounded, initial-IsBounded, emit-IsBounded}
use joshlong_examples.Atmosphere.Steps.{
  add_callback-IsBounded, close-IsBounded, subscribe-IsBounded, publish-IsBounded,
}
use joshlong_examples.Atmosphere.Handlers.{
  left, read_connection-IsBounded, push_by-IsBounded, on_error-IsBounded, opera-IsBounded,
  streaming-IsBounded, socket-IsBounded,
}

-- A call by the page, or by the browser of a handler.
pub data Step (jq : JQuery) (b : Browser) (location : Text → Text) : State → State → Type 0 where
  subscribes :
      (url : Text) (callback : Option ℕ) (o : RequestOptions) {s : State}
      → Step jq b location s (subscribe jq b location url callback o s)
  publishes :
      (url : Text) (callback : Option ℕ) (o : RequestOptions) {s : State}
      → Step jq b location s (publish jq b url callback o s)
  pushes :
      (fails : Bool) (url : Text) {s : State}
      → Step jq b location s (get_or (push jq b fails url s) s)
  adds : (f : ℕ) {s : State} → Step jq b location s (add_callback jq f s)
  closes : {s : State} → Step jq b location s (close_suspended_connection s)
  changes :
      (c : Connection) (x : Reading) {s : State}
      → Step jq b location s (left (on_ready_state jq b c x s))
  breaks : (c : ℕ) {s : State} → Step jq b location s (left (on_error jq c s))
  times_out :
      (c : ℕ) (r : Request) {s : State} → Step jq b location s (on_timeout jq b location c r s)
  hears : (e : SocketEvent) {s : State} → Step jq b location s (left (on_socket jq e s))
  streams : (args : Text) {s : State} → Step jq b location s (left (streaming_callback jq args s))
  sources : (content : Text) {s : State} → Step jq b location s (left (opera_callback jq content s))

pub data Reach (jq : JQuery) (b : Browser) (location : Text → Text) : State → Type 0 where
  loaded : Reach jq b location initial
  next : {s s' : State} → Reach jq b location s → Step jq b location s s' → Reach jq b location s'

Step-IsBounded :
    (jq : JQuery) (b : Browser) (location : Text → Text) {s s' : State}
    → Step jq b location s s'
    → IsBounded s
    → IsBounded s'
unfolding push on_timeout on_ready_state
Step-IsBounded jq b l (subscribes url f o {s = s}) v = subscribe-IsBounded jq b l url f o s v
Step-IsBounded jq b l (publishes url f o {s = s}) v = publish-IsBounded jq b url f o s v
Step-IsBounded jq b l (pushes fails url {s = s}) v =
    push_by-IsBounded jq b fails url s.response.push s v
Step-IsBounded jq b l (adds f {s = s}) v = add_callback-IsBounded jq f s v
Step-IsBounded jq b l (closes {s = s}) v = close-IsBounded s v
Step-IsBounded jq b l (changes c x {s = s}) v =
    read_connection-IsBounded jq b c x s s.aborting (get_elem? s.requests c.request) v
Step-IsBounded jq b l (breaks c {s = s}) v = on_error-IsBounded jq c s v
Step-IsBounded jq b l (times_out c r {s = s}) v =
    subscribe-IsBounded jq b l r.url none (as_options r) _ (emit-IsBounded (aborted c) s v)
Step-IsBounded jq b l (hears e {s = s}) v = socket-IsBounded jq e s v
Step-IsBounded jq b l (streams args {s = s}) v = streaming-IsBounded jq args s v
Step-IsBounded jq b l (sources content {s = s}) v = opera-IsBounded jq content s v

-- After any sequence of subscribe, publish, push and close, and of calls by the browser of the
-- handlers of connections, sockets, frames and timers: the connections opened with a request object
-- are at most as many as its `requestCount` says, and at most its `maxRequest`.
pub Reach-IsBounded :
    (jq : JQuery) (b : Browser) (location : Text → Text) {s : State}
    → Reach jq b location s
    → IsBounded s
Reach-IsBounded jq b l loaded = initial-IsBounded
Reach-IsBounded jq b l (next r st) = Step-IsBounded jq b l st (Reach-IsBounded jq b l r)
