-- ===== src/Atmosphere/Transport.antt =====
-- jquery.atmosphere.js: `executeRequest`, its handlers, and the transports through frames, event
-- sources and web sockets.
--
-- `abort` makes the browser call the state handler of the connection again. In
-- `closeSuspendedConnection` that call returns at once, since the flag is set; elsewhere it is a call
-- of `on_ready_state` in the sequence of calls.
use joshlong_examples.Common.{
  ℕ, ◌+◌, Bool, true, false, not, ◌&&◌, ◌||◌, Option, none, some, [], ◌∷◌, ◌++◌, ltb, ◌==◌,
  if◌then◌else◌, is_some, length, get_elem?, Text, codes, JQuery, contains,
}
use joshlong_examples.Atmosphere.Defs.{
  polling, streaming, websocket, same_transport, Browser, Request, message_received,
  message_published, openning, closed, error, poll_push, stream_push, websocket_push, Connection,
  opened, aborted, frame_opened, source_opened, socket_opened, socket_closed, timer_set,
  timer_cleared, reconnections_used_up, State, Result, done, reference_error, ◌>>=◌, emit,
  set_response, invoke_callback, message_of, next_chunk, update_request,
}

-- `closeSuspendedConnection`
unfoldable pub close_suspended_connection : State → State
close_suspended_connection s =
    let s1 : State = elim s.active_request [ none ↦ s | some c ↦ emit (aborted c) s ] in
    let s2 : State =
      if s1.has_socket then record (emit socket_closed s1) { has_socket = false } else s1 in
    record s2 { aborting = some false }

-- `ieStreaming`
unfoldable pub ie_streaming : Request → State → State
ie_streaming r s =
    emit (frame_opened r.url) (record s { response = record (s.response) { push = stream_push } })

-- `operaStreaming`; whether the element joins the document depends on the version, and is left out.
unfoldable pub opera_streaming : Request → State → State
opera_streaming r s =
    emit (source_opened r.url) (record s { response = record (s.response) { push = stream_push } })

-- `executeRequest` past the streaming of particular browsers, on the request at index `i`. Where the
-- request is used up, the last statement logs that, and throws if there is no log level.
unfoldable pub open_connection : ℕ → Request → State → State
open_connection i r s =
    let counted = update_request i (λ q. record q { request_count = q.request_count + 1 }) s in
    if ltb r.request_count r.max_request
    then (let kept = same_transport r.transport polling in
        let response = record (s.response) {
          push = poll_push;
          transport = if kept then s.response.transport else r.transport;
        } in
        let c = length s.connections in
        let connection : Connection = record { request = i; transport = r.transport } in
        let sent : State = record (emit (opened c connection) counted) {
          response = response;
          active_request = if r.suspend then some c else s.active_request;
          connections = s.connections ++ connection ∷ [];
        } in
        if r.suspend
        then emit (timer_set c r.timeout) (update_request i (λ q. record q { timer = some c }) sent)
        else sent)
    else if is_some s.log_level
    then emit reconnections_used_up counted
    else counted

-- `executeRequest` on the request at index `i`.
unfoldable pub execute : Browser → ℕ → State → State
execute b i s = elim (get_elem? s.requests i) [
  | none ↦ s
  | some r ↦
      if same_transport r.transport streaming && b.msie
      then ie_streaming r s
      else if same_transport r.transport streaming && b.event_stream
      then opera_streaming r s
      else open_connection i r s
]

unfoldable pub execute_request : Browser → State → State
execute_request b s = elim s.current [ none ↦ s | some i ↦ execute b i s ]

-- What a connection shows when its state changes.
pub record Reading : Type 0 where
  pub ready_state : ℕ
  pub status : ℕ
  pub text : Text

-- The part of the handler `onreadystatechange` that updates the response.
unfoldable pub deliver : JQuery → ℕ → Request → Reading → State → Result
deliver jq i r x s =
    let streams = same_transport r.transport streaming in
    let raw = if streams then next_chunk r.last_index x.text else x.text in
    let s1 =
      if streams
      then update_request i (λ q. record q { last_index = some (length x.text) }) s
      else s in
    let s2 = set_response (record (s.response) { body = message_of raw }) s1 in
    if streams && contains (codes "<!--") raw
    then done s2
    else invoke_callback jq (
        set_response
          (record (s2.response) {
            status = x.status;
            stage = if r.suspend then message_received else message_published;
          })
          s2)

-- Whether `executeRequest` throws.
unfoldable pub execute_throws : Browser → Request → State → Bool
execute_throws b r s =
    not (same_transport r.transport streaming && (b.msie || b.event_stream))
    && (not (ltb r.request_count r.max_request) && not (is_some s.log_level))

-- `onreadystatechange` of a connection, by the flag `abordingConnection` and its request.
unfoldable pub read_connection :
    JQuery → Browser → Connection → Reading → State → Option Bool → Option Request → Result
read_connection jq b c x s none o = reference_error s
read_connection jq b c x s (some true) o = done s
read_connection jq b c x s (some false) none = done s
read_connection jq b c x s (some false) (some r) =
    if x.ready_state == 4
    then (let s1 : State = record s { current = some c.request } in
        let again = r.suspend && x.status == 200 in
        let s2 = if again then execute_request b s1 else s1 in
        if again && execute_throws b r s
        then reference_error s2
        else if b.msie
        then deliver jq c.request r x s2
        else done s2)
    else if not b.msie && (x.ready_state == 3 && x.status == 200)
    then deliver jq c.request r x s
    else done (emit (timer_cleared r.timer) s)

unfoldable pub on_ready_state : JQuery → Browser → Connection → Reading → State → Result
on_ready_state jq b c x s = read_connection jq b c x s s.aborting (get_elem? s.requests c.request)

-- `onerror` of connection `c`. `XMLHttpRequest.status` is undefined on the constructor, and does not
-- throw, so the status of the response is lost (0 here).
unfoldable pub on_error : JQuery → ℕ → State → Result
on_error jq c s =
    invoke_callback jq (set_response (record (s.response) { status = 0; stage = error }) s) >>= λ t.
    done (record (emit (aborted c) t) { active_request = none })

-- `operaCallback`, which does nothing with an empty text.
unfoldable pub opera_callback : JQuery → Text → State → Result
opera_callback jq [] s = done s
opera_callback jq (u ∷ us) s =
    let content = u ∷ us in
    let s1 = set_response (record (s.response) { body = message_of content }) s in
    if contains (codes "<!--") content
    then done s1
    else invoke_callback jq (set_response (record (s1.response) { stage = message_received }) s1)

-- `streamingCallback`
unfoldable pub streaming_callback : JQuery → Text → State → Result
streaming_callback jq args s = invoke_callback jq (
    set_response
      (record (s.response) {
        transport = streaming;
        status = 200;
        body = args;
        stage = message_received;
      })
      s)

-- `executeWebSocket` on the request at index `i`; `location` rewrites `http:` to `ws:`.
unfoldable pub execute_web_socket : (Text → Text) → ℕ → Request → State → State
execute_web_socket location i r s = record (emit (socket_opened (location r.url)) s) {
  has_socket = true;
  response = record (s.response) { transport = websocket; push = websocket_push i };
}

-- The handlers of the web socket.
pub data SocketEvent : Type 0 where
  on_open on_error_ on_close : SocketEvent
  on_message : Text → SocketEvent

unfoldable pub on_socket : JQuery → SocketEvent → State → Result
on_socket jq on_open s =
    invoke_callback jq (set_response (record (s.response) { stage = openning }) s)
on_socket jq on_error_ s =
    invoke_callback jq (set_response (record (s.response) { stage = error }) s)
on_socket jq on_close s =
    invoke_callback jq (set_response (record (s.response) { stage = closed }) s)
on_socket jq (on_message content) s =
    invoke_callback jq (set_response (record (s.response) { body = message_of content }) s)
