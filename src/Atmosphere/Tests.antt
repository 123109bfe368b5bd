-- ===== src/Atmosphere/Tests.antt =====
-- jquery.atmosphere.js at concrete inputs: a streaming subscription.
use joshlong_examples.Common.{
  ◌≡◌, ◌++◌, refl, false, none, some, [], ◌∷◌, Text, codes, get_or, contains, index_of, starts_with,
  plain_jquery as jq,
}
use joshlong_examples.Atmosphere.Defs.{
  Browser, Request, RequestOptions, Connection, State, streaming, info, same_transport,
  transport_code, message_received, poll_push, opened, timer_set, initial, done, add_callback,
  message_of, emit, update_request,
}
use joshlong_examples.Atmosphere.Transport.{
  execute_request, execute, open_connection, close_suspended_connection,
}
use joshlong_examples.Atmosphere.Publish.{
  extend_request, subscribe_defaults, publish, subscribe, new_request, add_given, changes_transport,
  start_transport,
}
use joshlong_examples.Atmosphere.Limits.{IsBounded}
use joshlong_examples.Atmosphere.Bodies.{shown, wrap, message_of-wrap}
use joshlong_examples.Atmosphere.Handlers.{left}
use joshlong_examples.Atmosphere.Reach.{loaded, next, subscribes, publishes, Reach-IsBounded}
use joshlong_examples.Atmosphere.Streams.{read_all, told_all, read_all-shown}
use joshlong_examples.Atmosphere.Globals.{subscribe_ready}

abbrev browser : Browser
browser = record { msie = false; event_stream = false; web_socket = false }

abbrev nothing : RequestOptions
nothing = record {
  url = none;
  method = none;
  content = none;
  headers = none;
  suspend = none;
  max_request = none;
  request_count = none;
  last_index = none;
  fallback_transport = none;
  transport = none;
  timeout = none;
  log_level = none;
  timer = none;
}

abbrev streams : RequestOptions
streams = record nothing { transport = some streaming }

abbrev url : Text
url = codes "/feed"

-- The state after `subscribe("/feed", 5, {transport: "streaming"})`.
abbrev request : Request
request = record (subscribe_defaults url) {
  transport = streaming;
  request_count = 1;
  timer = some 0;
}

abbrev connection : Connection
connection = record { request = 0; transport = streaming }

abbrev subscribed : State
subscribed = record {
  requests = request ∷ [];
  current = some 0;
  response = record {
    status = 200;
    body = [];
    stage = message_received;
    transport = streaming;
    push = poll_push;
  };
  active_request = some 0;
  aborting = some false;
  log_level = some info;
  active_transport = some streaming;
  has_socket = false;
  callbacks = 5 ∷ [];
  connections = connection ∷ [];
  log = opened 0 connection ∷ timer_set 0 300000 ∷ [];
}

subscribe-subscribed : subscribe jq browser (λ u. u) url (some 5) streams initial ≡ subscribed
unfolding subscribe subscribe_defaults extend_request new_request add_given add_callback
    changes_transport close_suspended_connection start_transport execute_request execute
    open_connection emit update_request initial same_transport transport_code
subscribe-subscribed = refl

Reach-IsBounded_example : IsBounded (
    publish jq browser url none nothing
      (subscribe jq browser (λ u. u) url (some 5) streams initial))
Reach-IsBounded_example =
    Reach-IsBounded jq browser (λ u. u)
      (next (next loaded (subscribes url (some 5) streams)) (publishes url none nothing))

read_all-shown_example :
    let texts = shown [] (codes "ab" ∷ codes "c" ∷ []) in
    let end_ = left (read_all jq browser connection texts subscribed) in
    (read_all jq browser connection texts subscribed ≡ done end_)
    × (end_.log
        ≡ subscribed.log
          ++ told_all request (codes "ab" ∷ codes "c" ∷ []) subscribed.response (5 ∷ []))
unfolding subscribe_defaults same_transport transport_code contains index_of starts_with
read_all-shown_example =
    read_all-shown jq browser connection request info [] (codes "ab" ∷ codes "c" ∷ []) subscribed
      refl refl refl refl refl refl

message_of-wrap_example : message_of (wrap (codes "hello") (codes ";</script>")) ≡ codes "hello"
unfolding starts_with
message_of-wrap_example = message_of-wrap (codes "hello") (codes ";</script>") refl refl

-- The subscription after 4 code units were read.
abbrev read_on : State
read_on = record subscribed { requests = record request { last_index = some 4 } ∷ [] }

subscribe_ready_example :
    let r = extend_request jq (subscribe_defaults url) streams in
    let s' = subscribe jq browser (λ u. u) url (some 5) streams initial in
    (s'.aborting ≡ some false)
    × (s'.log_level ≡ some (get_or r.log_level info))
    × (s'.active_transport ≡ some r.transport)
unfolding initial
subscribe_ready_example = subscribe_ready jq browser (λ u. u) url (some 5) streams initial refl
