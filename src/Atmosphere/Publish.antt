-- ===== src/Atmosphere/Publish.antt =====
-- jquery.atmosphere.js: `subscribe`, `publish`, `response.push` and the timer of a request.
use joshlong_examples.Common.{
  ℕ, Bool, true, false, not, Option, none, some, List, [], ◌∷◌, ◌++◌, if◌then◌else◌, is_some,
  get_or, length, get_elem?, Text, codes, JQuery,
}
use joshlong_examples.Atmosphere.Defs.{
  Transport, polling, long_polling, streaming, websocket, same_transport, info, Browser, Request,
  RequestOptions, as_options, message_received, Push, no_push, poll_push, stream_push,
  websocket_push, socket_sent, socket_closed, aborted, State, emit, set_response, add_callback,
  update_request,
}
use joshlong_examples.Atmosphere.Transport.{
  close_suspended_connection, execute_request, execute_web_socket,
}

-- `jQuery.extend` of the properties that all defaults have.
unfoldable pub extend_request : JQuery → Request → RequestOptions → Request
extend_request jq d o = record {
  url = jq.extend Text d.url o.url;
  method = jq.extend Text d.method o.method;
  content = jq.extend Text d.content o.content;
  headers = jq.extend (List (Text × Text)) d.headers o.headers;
  suspend = jq.extend Bool d.suspend o.suspend;
  max_request = jq.extend ℕ d.max_request o.max_request;
  request_count = jq.extend ℕ d.request_count o.request_count;
  last_index = if is_some o.last_index then o.last_index else d.last_index;
  fallback_transport =
      if is_some o.fallback_transport then o.fallback_transport else d.fallback_transport;
  transport = jq.extend Transport d.transport o.transport;
  timeout = jq.extend ℕ d.timeout o.timeout;
  log_level = if is_some o.log_level then o.log_level else d.log_level;
  timer = if is_some o.timer then o.timer else d.timer;
}

-- The defaults of `subscribe`.
unfoldable pub subscribe_defaults : Text → Request
subscribe_defaults url = record {
  url = url;
  method = codes "GET";
  content = [];
  headers = [];
  suspend = true;
  max_request = 60;
  request_count = 0;
  last_index = some 0;
  fallback_transport = some streaming;
  transport = long_polling;
  timeout = 300000;
  log_level = some info;
  timer = none;
}

-- The defaults of `publish`.
unfoldable pub publish_defaults : Text → Request
publish_defaults url = record {
  url = url;
  method = codes "POST";
  content = [];
  headers = [];
  suspend = false;
  max_request = 60;
  request_count = 0;
  last_index = none;
  fallback_transport = none;
  transport = polling;
  timeout = 60000;
  log_level = some info;
  timer = none;
}

-- `jQuery.atmosphere.request = …`, a new object.
unfoldable pub new_request : Request → State → State
new_request r s = record s { requests = s.requests ++ r ∷ []; current = some (length s.requests) }

-- The last part of `subscribe`, by the transport.
unfoldable pub start_transport : Browser → (Text → Text) → ℕ → Request → State → State
start_transport b location i r s =
    if not (same_transport r.transport websocket)
    then execute_request b s
    else if not b.web_socket
    then execute_request b
        (update_request i (λ q. record q { transport = get_or q.fallback_transport q.transport }) s)
    else execute_web_socket location i r s

-- `activeTransport` is another one, or not set.
unfoldable pub changes_transport : Transport → Option Transport → Bool
changes_transport t none = true
changes_transport t (some a) = not (same_transport t a)

unfoldable pub add_given : JQuery → Option ℕ → State → State
add_given jq none s = s
add_given jq (some f) s = add_callback jq f s

-- `subscribe(url, callback, request)`
unfoldable pub subscribe :
    JQuery → Browser → (Text → Text) → Text → Option ℕ → RequestOptions → State → State
subscribe jq b location url callback o s =
    let r = extend_request jq (subscribe_defaults url) o in
    let i = length s.requests in
    let s1 = record (new_request r s) { log_level = some (get_or r.log_level info) } in
    let s2 = add_given jq callback s1 in
    let s3 =
      if changes_transport r.transport s2.active_transport
      then close_suspended_connection s2
      else s2 in
    start_transport b location i r (record s3 { active_transport = some r.transport })

-- `publish(url, callback, request)`. It sets the transport to `polling` before it looks at it, so
-- the branch for web sockets is never taken.
unfoldable pub publish : JQuery → Browser → Text → Option ℕ → RequestOptions → State → State
publish jq b url callback o s =
    let r = extend_request jq (publish_defaults url) o in
    let s1 = add_given jq callback (new_request r s) in
    execute_request b
      (update_request (length s.requests) (λ q. record q { transport = polling }) s1)

-- `publish` with the current request, as the pushes call it.
unfoldable pub republish : JQuery → Browser → Text → State → State
republish jq b url s = elim s.current [
  | none ↦ s
  | some i ↦ elim (get_elem? s.requests i) [
    | none ↦ s
    | some r ↦ publish jq b url none (as_options r) s
  ]
]

-- The timer of a request: it aborts its connection `c`, then subscribes anew with the request.
unfoldable pub on_timeout : JQuery → Browser → (Text → Text) → ℕ → Request → State → State
on_timeout jq b location c r s =
    subscribe jq b location r.url none (as_options r) (emit (aborted c) s)

-- `response.push` over a web socket: `fails` says whether `send` throws. Then the request falls back,
-- is run again, and the data are published.
unfoldable pub push_socket : JQuery → Browser → Bool → ℕ → Text → State → State
push_socket jq b fails i url s = elim s.current [
  | none ↦ s
  | some j ↦ elim (get_elem? s.requests j) [
    | none ↦ s
    | some r ↦
        if not fails
        then emit (socket_sent r.content) s
        else (let fallback =
              λ (q : Request). record q { transport = get_or q.fallback_transport q.transport } in
            let s1 =
              execute_request b (record (update_request i fallback s) { current = some i }) in
            let resend = λ (q : Request). record q {
              suspend = false;
              method = codes "POST";
              content = r.content;
            } in
            let s2 = update_request i resend s1 in
            let t : Transport = elim (get_elem? s2.requests i) [
              | none ↦ polling
              | some q ↦ get_or q.fallback_transport q.transport
            ] in
            let response = record (s2.response) { stage = message_received; transport = t } in
            emit socket_closed (republish jq b url (set_response response s2)))
  ]
]

-- `response.push(url)`, by what `push` is; `no_push` is the empty array of the initial response, which
-- is no function.
unfoldable pub push_by : JQuery → Browser → Bool → Text → Push → State → Option State
push_by jq b fails url no_push s = none
push_by jq b fails url poll_push s = some (republish jq b url s)
push_by jq b fails url stream_push s =
    let set_polling = λ (q : Request). record q { transport = polling } in
    some
      (republish jq b url (elim s.current [ none ↦ s | some i ↦ update_request i set_polling s ]))
push_by jq b fails url (websocket_push i) s = some (push_socket jq b fails i url s)

unfoldable pub push : JQuery → Browser → Bool → Text → State → Option State
push jq b fails url s = push_by jq b fails url s.response.push s
