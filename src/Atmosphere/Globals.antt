-- ===== src/Atmosphere/Globals.antt =====
-- The globals `abordingConnection` and `logLevel` of jquery.atmosphere.js, which exist only once
-- `subscribe` has written them.
use joshlong_examples.Common.{
  ℕ, ◌≡◌, refl, sym, ap, subst, ◌∙◌, Bool, true, false, not, ◌&&◌, Option, none, some, ◌+◌, ltb,
  if◌then◌else◌, get_or, is_some, length, get_elem?, set, Text, JQuery,
}
use joshlong_examples.Atmosphere.Defs.{
  Transport, polling, streaming, websocket, same_transport, Browser, Request, RequestOptions,
  Connection, State, aborted, reference_error, initial, emit, add_callback, update_request, info,
}
use joshlong_examples.Atmosphere.Transport.{
  close_suspended_connection, ie_streaming, opera_streaming, open_connection, execute,
  execute_request, execute_web_socket, Reading, read_connection, on_ready_state,
}
use joshlong_examples.Atmosphere.Publish.{
  extend_request, publish_defaults, subscribe_defaults, new_request, start_transport,
  changes_transport, add_given, publish, subscribe,
}

pub record SameGlobals (s t : State) : Type 0 where
  pub aborting : t.aborting ≡ s.aborting
  pub log_level : t.log_level ≡ s.log_level
  pub active_transport : t.active_transport ≡ s.active_transport

same :
    {s t : State}
    → t.aborting ≡ s.aborting
    → t.log_level ≡ s.log_level
    → t.active_transport ≡ s.active_transport
    → SameGlobals s t
same a l t = record { aborting = a; log_level = l; active_transport = t }

chain : {s t u : State} → SameGlobals s t → SameGlobals t u → SameGlobals s u
chain e f =
    same (f.aborting ∙ e.aborting) (f.log_level ∙ e.log_level)
      (f.active_transport ∙ e.active_transport)

either-SameGlobals :
    (c : Bool) {s t u : State}
    → SameGlobals s t
    → SameGlobals s u
    → SameGlobals s (if c then t else u)
either-SameGlobals true e f = e
either-SameGlobals false e f = f

update_request-SameGlobals :
    (i : ℕ) (f : Request → Request) (s : State) → SameGlobals s (update_request i f s)
unfolding update_request
update_request-SameGlobals i f s = go (get_elem? s.requests i)
  where
    go :
        (o : Option Request)
        → SameGlobals s
            (elim o [ none ↦ s | some r ↦ record s { requests = set s.requests i (f r) } ])
    go none = same refl refl refl
    go (some r) = same refl refl refl

open_connection-SameGlobals :
    (i : ℕ) (r : Request) (s : State) → SameGlobals s (open_connection i r s)
unfolding open_connection emit
open_connection-SameGlobals i r s =
    let up =
      update_request-SameGlobals i (λ q. record q { request_count = q.request_count + 1 }) s in
    let sent = same up.aborting up.log_level up.active_transport in
    let timed =
      update_request-SameGlobals i (λ q. record q { timer = some (length s.connections) }) _ in
    either-SameGlobals (ltb r.request_count r.max_request)
      (either-SameGlobals r.suspend
        (chain sent (same timed.aborting timed.log_level timed.active_transport)) sent)
      (either-SameGlobals (is_some s.log_level) (same up.aborting up.log_level up.active_transport)
        up)

execute-SameGlobals : (b : Browser) (i : ℕ) (s : State) → SameGlobals s (execute b i s)
unfolding execute ie_streaming opera_streaming emit
execute-SameGlobals b i s = go (get_elem? s.requests i)
  where
    go :
        (o : Option Request)
        → SameGlobals s (elim o [
          | none ↦ s
          | some r ↦
              if same_transport r.transport streaming && b.msie
              then ie_streaming r s
              else if same_transport r.transport streaming && b.event_stream
              then opera_streaming r s
              else open_connection i r s
        ])
    go none = same refl refl refl
    go (some r) =
        either-SameGlobals (same_transport r.transport streaming && b.msie) (same refl refl refl) (
          either-SameGlobals (same_transport r.transport streaming && b.event_stream)
            (same refl refl refl) (open_connection-SameGlobals i r s))

execute_request-SameGlobals : (b : Browser) (s : State) → SameGlobals s (execute_request b s)
unfolding execute_request
execute_request-SameGlobals b s = go s.current
  where
    go : (o : Option ℕ) → SameGlobals s (elim o [ none ↦ s | some i ↦ execute b i s ])
    go none = same refl refl refl
    go (some i) = execute-SameGlobals b i s

add_given-SameGlobals : (jq : JQuery) (o : Option ℕ) (s : State) → SameGlobals s (add_given jq o s)
unfolding add_given add_callback
add_given-SameGlobals jq none s = same refl refl refl
add_given-SameGlobals jq (some f) s =
    either-SameGlobals (jq.in_array f s.callbacks) (same refl refl refl) (same refl refl refl)

publish-SameGlobals :
    (jq : JQuery) (b : Browser) (url : Text) (callback : Option ℕ) (o : RequestOptions) (s : State)
    → SameGlobals s (publish jq b url callback o s)
unfolding publish new_request
publish-SameGlobals jq b url callback o s =
    let fresh = new_request (extend_request jq (publish_defaults url) o) s in
    let added = add_given-SameGlobals jq callback fresh in
    chain (same added.aborting added.log_level added.active_transport) (
      chain
        (update_request-SameGlobals (length s.requests) (λ q. record q { transport = polling })
          (add_given jq callback fresh))
        (execute_request-SameGlobals b _))

-- After a `publish` with no `subscribe` before it, the handler of a state change of any connection
-- throws, whatever the connection shows: nothing has written `abordingConnection`.
pub on_ready_state-publish :
    (jq : JQuery) (b : Browser) (c : Connection) (x : Reading) (url : Text) (callback : Option ℕ)
    (o : RequestOptions)
    → on_ready_state jq b c x (publish jq b url callback o initial)
      ≡ reference_error (publish jq b url callback o initial)
unfolding on_ready_state read_connection initial
on_ready_state-publish jq b c x url callback o =
    let s = publish jq b url callback o initial in
    ap (λ a. read_connection jq b c x s a (get_elem? s.requests c.request))
      (publish-SameGlobals jq b url callback o initial).aborting

start_transport-SameGlobals :
    (b : Browser) (location : Text → Text) (i : ℕ) (r : Request) (s : State)
    → SameGlobals s (start_transport b location i r s)
unfolding start_transport execute_web_socket emit
start_transport-SameGlobals b location i r s =
    either-SameGlobals (not (same_transport r.transport websocket))
      (execute_request-SameGlobals b s)
      (either-SameGlobals (not b.web_socket)
        (chain (update_request-SameGlobals i _ s) (execute_request-SameGlobals b _))
        (same refl refl refl))

close-log_level : (s : State) → (close_suspended_connection s).log_level ≡ s.log_level
unfolding close_suspended_connection emit
close-log_level s =
    let first = aborted_first s.active_request in
    let s1 : State = elim s.active_request [ none ↦ s | some c ↦ emit (aborted c) s ] in
    (either-SameGlobals s1.has_socket (chain first (same refl refl refl)) first).log_level
  where
    aborted_first :
        (o : Option ℕ) → SameGlobals s (elim o [ none ↦ s | some c ↦ emit (aborted c) s ])
    aborted_first none = same refl refl refl
    aborted_first (some c) = same refl refl refl

closed_first :
    (t : Transport) (s : State)
    → s.active_transport ≡ none
    → let s' = if changes_transport t s.active_transport then close_suspended_connection s else s in
      (s'.aborting ≡ some false) × (s'.log_level ≡ s.log_level)
unfolding changes_transport close_suspended_connection
closed_first t s h =
    subst (λ s'. (s'.aborting ≡ some false) × (s'.log_level ≡ s.log_level)) (sym closes)
      (refl, close-log_level s)
  where
    closes :
        (if changes_transport t s.active_transport then close_suspended_connection s else s)
        ≡ close_suspended_connection s
    closes = ap (λ o. if changes_transport t o then close_suspended_connection s else s) h

-- `subscribe` where no transport is active, as at first: the flag exists and is false afterwards, the
-- log level is that of the request, or `info` where it has none, and the active transport is the
-- request's.
pub subscribe_ready :
    (jq : JQuery) (b : Browser) (location : Text → Text) (url : Text) (callback : Option ℕ)
    (o : RequestOptions) (s : State)
    → s.active_transport ≡ none
    → let r = extend_request jq (subscribe_defaults url) o in
      let s' = subscribe jq b location url callback o s in
      (s'.aborting ≡ some false)
      × (s'.log_level ≡ some (get_or r.log_level info))
      × (s'.active_transport ≡ some r.transport)
unfolding subscribe new_request
subscribe_ready jq b location url callback o s none_active =
    let r = extend_request jq (subscribe_defaults url) o in
    let fresh = record (new_request r s) { log_level = some (get_or r.log_level info) } in
    let added = add_given-SameGlobals jq callback fresh in
    let (closed, level) =
      closed_first r.transport (add_given jq callback fresh)
        (added.active_transport ∙ none_active) in
    let started = start_transport-SameGlobals b location (length s.requests) r _ in
    (
      started.aborting ∙ closed,
      started.log_level ∙ level ∙ added.log_level,
      started.active_transport,
    )
