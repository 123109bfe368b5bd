-- ===== src/Atmosphere/Steps.antt =====
-- The bound on connections of jquery.atmosphere.js, through `executeRequest`, `subscribe` and
-- `publish`.
use joshlong_examples.Common.{
  ℕ, ◌≡◌, refl, inl, inr, arith, ◌&&◌, Option, none, some, Bool-cases, Option-cases, get_or, length,
  get_elem?, Text, JQuery,
}
use joshlong_examples.Atmosphere.Defs.{
  polling, streaming, websocket, same_transport, Browser, Request, RequestOptions, as_options,
  State, emit, add_callback, update_request, info,
}
use joshlong_examples.Atmosphere.Transport.{
  close_suspended_connection, ie_streaming, opera_streaming, execute, execute_request,
  execute_web_socket,
}
use joshlong_examples.Atmosphere.Publish.{
  extend_request, new_request, start_transport, changes_transport, add_given, subscribe, publish,
  republish, publish_defaults, subscribe_defaults,
}
use joshlong_examples.Atmosphere.Limits.{
  IsBounded, SameRequests-IsBounded, new_request-IsBounded, update_request-IsBounded,
  open_connection-IsBounded,
}

execute-IsBounded : (b : Browser) (i : ℕ) (s : State) → IsBounded s → IsBounded (execute b i s)
unfolding execute ie_streaming opera_streaming emit
execute-IsBounded b i s v = elim (Option-cases (get_elem? s.requests i)) [
  | inl e ↦ rw (e, execute) v
  | inr (r, e) ↦ elim (Bool-cases (same_transport r.transport streaming && b.msie)) [
    | inl t ↦
        rw (e, execute, t)
          (SameRequests-IsBounded (record { requests = refl; connections = refl }) v)
    | inr f ↦ elim (Bool-cases (same_transport r.transport streaming && b.event_stream)) [
      | inl t ↦
          rw (e, execute, f, t)
            (SameRequests-IsBounded (record { requests = refl; connections = refl }) v)
      | inr n ↦ rw (e, execute, f, n) (open_connection-IsBounded i r s e v)
    ]
  ]
]

pub execute_request-IsBounded :
    (b : Browser) (s : State) → IsBounded s → IsBounded (execute_request b s)
unfolding execute_request
execute_request-IsBounded b s v = elim (Option-cases s.current) [
  | inl e ↦ simp (e, execute_request) v
  | inr (i, e) ↦ simp (e, execute_request) (execute-IsBounded b i s v)
]

pub add_callback-IsBounded :
    (jq : JQuery) (f : ℕ) (s : State) → IsBounded s → IsBounded (add_callback jq f s)
unfolding add_callback
add_callback-IsBounded jq f s v = elim (Bool-cases (jq.in_array f s.callbacks)) [
  | inl t ↦ rw t v
  | inr n ↦ rw n (SameRequests-IsBounded (record { requests = refl; connections = refl }) v)
]

add_given-IsBounded :
    (jq : JQuery) (o : Option ℕ) (s : State) → IsBounded s → IsBounded (add_given jq o s)
unfolding add_given
add_given-IsBounded jq none s v = v
add_given-IsBounded jq (some f) s v = add_callback-IsBounded jq f s v

pub close-IsBounded : (s : State) → IsBounded s → IsBounded (close_suspended_connection s)
unfolding close_suspended_connection emit
close-IsBounded s v = elim (Option-cases s.active_request) [
  | inl e ↦ elim (Bool-cases s.has_socket) [
    | inl t ↦ rw (e, t) (SameRequests-IsBounded (record { requests = refl; connections = refl }) v)
    | inr t ↦ rw (e, t) (SameRequests-IsBounded (record { requests = refl; connections = refl }) v)
  ]
  | inr (c, e) ↦ elim (Bool-cases s.has_socket) [
    | inl t ↦ rw (e, t) (SameRequests-IsBounded (record { requests = refl; connections = refl }) v)
    | inr t ↦ rw (e, t) (SameRequests-IsBounded (record { requests = refl; connections = refl }) v)
  ]
]

pub fall_back-IsBounded :
    (i : ℕ) (s : State) (f : Request → Request)
    → ((q : Request)
        → ((f q).request_count ≡ q.request_count) × ((f q).max_request ≡ q.max_request))
    → IsBounded s
    → IsBounded (update_request i f s)
fall_back-IsBounded i s f same v =
    update_request-IsBounded i f s (λ q. let (c, m) = same q in (omega arith, omega arith)) v

start_transport-IsBounded :
    (b : Browser) (location : Text → Text) (i : ℕ) (r : Request) (s : State)
    → IsBounded s
    → IsBounded (start_transport b location i r s)
unfolding start_transport execute_web_socket emit
start_transport-IsBounded b location i r s v =
    elim (Bool-cases (same_transport r.transport websocket)) [
      | inr f ↦ rw f (execute_request-IsBounded b s v)
      | inl t ↦ elim (Bool-cases b.web_socket) [
        | inl w ↦
            simp (t, w) (SameRequests-IsBounded (record { requests = refl; connections = refl }) v)
        | inr w ↦
            simp (t, w)
              (execute_request-IsBounded b _ (
                fall_back-IsBounded i s
                  (λ q. record q { transport = get_or q.fallback_transport q.transport })
                  (λ q. (refl, refl)) v))
      ]
    ]

-- Whatever the options, `subscribe` keeps the bound.
pub subscribe-IsBounded :
    (jq : JQuery) (b : Browser) (location : Text → Text) (url : Text) (callback : Option ℕ)
    (o : RequestOptions) (s : State)
    → IsBounded s
    → IsBounded (subscribe jq b location url callback o s)
unfolding subscribe
subscribe-IsBounded jq b location url callback o s v =
    let r = extend_request jq (subscribe_defaults url) o in
    let added =
      add_given-IsBounded jq callback
        (record (new_request r s) { log_level = some (get_or r.log_level info) })
        (SameRequests-IsBounded (record { requests = refl; connections = refl })
          (new_request-IsBounded r s v)) in
    elim (Bool-cases (
      changes_transport r.transport
        (add_given jq callback (record (new_request r s) {
          log_level = some (get_or r.log_level info);
        })).active_transport)) [
          | inl t ↦ rw t (
              start_transport-IsBounded b location (length s.requests) r _ (
                SameRequests-IsBounded (record { requests = refl; connections = refl })
                  (close-IsBounded _ added)))
          | inr f ↦ rw f (
              start_transport-IsBounded b location (length s.requests) r _
                (SameRequests-IsBounded (record { requests = refl; connections = refl }) added))
        ]

pub publish-IsBounded :
    (jq : JQuery) (b : Browser) (url : Text) (callback : Option ℕ) (o : RequestOptions) (s : State)
    → IsBounded s
    → IsBounded (publish jq b url callback o s)
unfolding publish
publish-IsBounded jq b url callback o s v =
    let r = extend_request jq (publish_defaults url) o in
    execute_request-IsBounded b _ (
      fall_back-IsBounded (length s.requests) _ (λ q. record q { transport = polling })
        (λ q. (refl, refl))
        (add_given-IsBounded jq callback (new_request r s) (new_request-IsBounded r s v)))

pub republish-IsBounded :
    (jq : JQuery) (b : Browser) (url : Text) (s : State)
    → IsBounded s
    → IsBounded (republish jq b url s)
unfolding republish
republish-IsBounded jq b url s v = elim (Option-cases s.current) [
  | inl e ↦ simp (e, republish) v
  | inr (i, e) ↦ elim (Option-cases (get_elem? s.requests i)) [
    | inl n ↦ simp (e, republish, n) v
    | inr (r, n) ↦ simp (e, republish, n) (publish-IsBounded jq b url none (as_options r) s v)
  ]
]
