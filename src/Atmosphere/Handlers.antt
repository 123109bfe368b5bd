-- ===== src/Atmosphere/Handlers.antt =====
-- The bound on connections of jquery.atmosphere.js, through the handlers and the pushes.
use joshlong_examples.Common.{
  ℕ, refl, inl, inr, Bool, true, false, not, ◌&&◌, Option, none, some, List, [], ◌∷◌, ◌==◌,
  if◌then◌else◌, Bool-cases, Option-cases, get_or, length, get_elem?, Text, codes, JQuery, fold,
  contains,
}
use joshlong_examples.Atmosphere.Defs.{
  polling, streaming, same_transport, Browser, Request, Connection, called, aborted, socket_sent,
  socket_closed, timer_cleared, State, Result, done, reference_error, ◌>>=◌, emit, set_response,
  invoke_callback, message_of, next_chunk, update_request, Push, error, no_push, poll_push,
  stream_push, websocket_push,
}
use joshlong_examples.Atmosphere.Transport.{
  Reading, deliver, execute_throws, read_connection, on_error, opera_callback, streaming_callback,
  SocketEvent, on_open, on_error_, on_close, on_message, on_socket,
}
use joshlong_examples.Atmosphere.Publish.{push_socket, push_by}
use joshlong_examples.Atmosphere.Limits.{
  IsBounded, SameRequests-IsBounded, emit-IsBounded, set_response-IsBounded,
}
use joshlong_examples.Atmosphere.Steps.{
  execute_request-IsBounded, republish-IsBounded, fall_back-IsBounded,
}

-- The state that a call leaves, also where it throws.
abbrev pub left : Result → State
left (done s) = s
left (reference_error s) = s

either-IsBounded :
    (c : Bool) {s t : State} → IsBounded s → IsBounded t → IsBounded (if c then s else t)
either-IsBounded true v w = v
either-IsBounded false v w = w

either_left :
    (c : Bool) (x y : Result)
    → IsBounded (left x)
    → IsBounded (left y)
    → IsBounded (left (if c then x else y))
either_left true x y v w = v
either_left false x y v w = w

fold-IsBounded :
    (jq : JQuery) (fs : List ℕ) (s : State)
    → IsBounded s
    → IsBounded (fold (λ f (t : State). emit (called f s.response) t) fs s)
fold-IsBounded jq fs s v = go fs s v
  where
    go :
        (fs : List ℕ) (t : State)
        → IsBounded t
        → IsBounded (fold (λ f (t : State). emit (called f s.response) t) fs t)
    go [] t v = v
    go (f ∷ fs) t v =
        go fs (emit (called f s.response) t) (emit-IsBounded (called f s.response) t v)

invoke-IsBounded : (jq : JQuery) (s : State) → IsBounded s → IsBounded (left (invoke_callback jq s))
unfolding invoke_callback
invoke-IsBounded jq s v = elim (Option-cases s.log_level) [
  | inl e ↦ simp (e, invoke_callback) v
  | inr (l, e) ↦ simp (e, invoke_callback, jq.each_lem) (fold-IsBounded jq s.callbacks s v)
]

deliver-IsBounded :
    (jq : JQuery) (i : ℕ) (r : Request) (x : Reading) (s : State)
    → IsBounded s
    → IsBounded (left (deliver jq i r x s))
unfolding deliver
deliver-IsBounded jq i r x s v = elim (Bool-cases (same_transport r.transport streaming)) [
  | inr f ↦ rw f (invoke-IsBounded jq _ (set_response-IsBounded _ _ (set_response-IsBounded _ s v)))
  | inl t ↦
      let kept =
        set_response-IsBounded
          (record (s.response) { body = message_of (next_chunk r.last_index x.text) }) _
          (fall_back-IsBounded i s (λ q. record q { last_index = some (length x.text) })
            (λ q. (refl, refl)) v) in
      elim (Bool-cases (contains (codes "<!--") (next_chunk r.last_index x.text))) [
        | inl k ↦ rw (t, k) kept
        | inr n ↦ rw (t, n) (invoke-IsBounded jq _ (set_response-IsBounded _ _ kept))
      ]
]

pub read_connection-IsBounded :
    (jq : JQuery) (b : Browser) (c : Connection) (x : Reading) (s : State) (aborting : Option Bool)
    (o : Option Request)
    → IsBounded s
    → IsBounded (left (read_connection jq b c x s aborting o))
unfolding read_connection
read_connection-IsBounded jq b c x s none o v = v
read_connection-IsBounded jq b c x s (some true) o v = v
read_connection-IsBounded jq b c x s (some false) none v = v
read_connection-IsBounded jq b c x s (some false) (some r) v =
    let now : State = record s { current = some c.request } in
    let at_end : IsBounded now =
      SameRequests-IsBounded (record { requests = refl; connections = refl }) v in
    let again =
      either-IsBounded (r.suspend && x.status == 200) (execute_request-IsBounded b now at_end)
        at_end in
    either_left (x.ready_state == 4) _ _
      (either_left ((r.suspend && x.status == 200) && execute_throws b r s) _ _ again
        (either_left b.msie _ _ (deliver-IsBounded jq c.request r x _ again) again))
      (either_left (not b.msie && (x.ready_state == 3 && x.status == 200)) _ _
        (deliver-IsBounded jq c.request r x s v) (emit-IsBounded (timer_cleared r.timer) s v))

push_socket-IsBounded :
    (jq : JQuery) (b : Browser) (fails : Bool) (i : ℕ) (url : Text) (s : State)
    → IsBounded s
    → IsBounded (push_socket jq b fails i url s)
unfolding push_socket
push_socket-IsBounded jq b fails i url s v = elim (Option-cases s.current) [
  | inl e ↦ simp (e, push_socket) v
  | inr (j, e) ↦ elim (Option-cases (get_elem? s.requests j)) [
    | inl n ↦ simp (e, n, push_socket) v
    | inr (r, n) ↦
        simp (e, n, push_socket)
          (either-IsBounded (not fails) (emit-IsBounded (socket_sent r.content) s v) (
            emit-IsBounded socket_closed _ (
              republish-IsBounded jq b url _ (
                set_response-IsBounded _ _ (
                  fall_back-IsBounded i _ _ (λ q. (refl, refl))
                    (execute_request-IsBounded b _ (
                      SameRequests-IsBounded (record { requests = refl; connections = refl })
                        (fall_back-IsBounded i s _ (λ q. (refl, refl)) v))))))))
  ]
]

pub push_by-IsBounded :
    (jq : JQuery) (b : Browser) (fails : Bool) (url : Text) (p : Push) (s : State)
    → IsBounded s
    → IsBounded (get_or (push_by jq b fails url p s) s)
unfolding push_by
push_by-IsBounded jq b fails url no_push s v = v
push_by-IsBounded jq b fails url poll_push s v = republish-IsBounded jq b url s v
push_by-IsBounded jq b fails url stream_push s v = republish-IsBounded jq b url _ (polled s.current)
  where
    set_polling : Request → Request
    set_polling q = record q { transport = polling }

    polled :
        (o : Option ℕ) → IsBounded (elim o [ none ↦ s | some i ↦ update_request i set_polling s ])
    polled none = v
    polled (some i) = fall_back-IsBounded i s set_polling (λ q. (refl, refl)) v
push_by-IsBounded jq b fails url (websocket_push i) s v = push_socket-IsBounded jq b fails i url s v

pub on_error-IsBounded :
    (jq : JQuery) (c : ℕ) (s : State) → IsBounded s → IsBounded (left (on_error jq c s))
unfolding on_error
on_error-IsBounded jq c s v =
    let failed = record (s.response) { status = 0; stage = error } in
    ends (invoke_callback jq (set_response failed s))
      (invoke-IsBounded jq _ (set_response-IsBounded failed s v))
  where
    ends :
        (x : Result)
        → IsBounded (left x)
        → IsBounded (left (x >>= λ t. done (record (emit (aborted c) t) { active_request = none })))
    ends (done t) w =
        SameRequests-IsBounded (record { requests = refl; connections = refl })
          (emit-IsBounded (aborted c) t w)
    ends (reference_error t) w = w

pub opera-IsBounded :
    (jq : JQuery) (content : Text) (s : State)
    → IsBounded s
    → IsBounded (left (opera_callback jq content s))
unfolding opera_callback
opera-IsBounded jq [] s v = v
opera-IsBounded jq (u ∷ us) s v =
    let content = u ∷ us in
    let changed = set_response-IsBounded (record (s.response) { body = message_of content }) s v in
    either_left (contains (codes "<!--") content) _ _ changed
      (invoke-IsBounded jq _ (set_response-IsBounded _ _ changed))

pub streaming-IsBounded :
    (jq : JQuery) (args : Text) (s : State)
    → IsBounded s
    → IsBounded (left (streaming_callback jq args s))
unfolding streaming_callback
streaming-IsBounded jq args s v = invoke-IsBounded jq _ (set_response-IsBounded _ s v)

pub socket-IsBounded :
    (jq : JQuery) (e : SocketEvent) (s : State) → IsBounded s → IsBounded (left (on_socket jq e s))
unfolding on_socket
socket-IsBounded jq on_open s v = invoke-IsBounded jq _ (set_response-IsBounded _ s v)
socket-IsBounded jq on_error_ s v = invoke-IsBounded jq _ (set_response-IsBounded _ s v)
socket-IsBounded jq on_close s v = invoke-IsBounded jq _ (set_response-IsBounded _ s v)
socket-IsBounded jq (on_message content) s v = invoke-IsBounded jq _ (set_response-IsBounded _ s v)
