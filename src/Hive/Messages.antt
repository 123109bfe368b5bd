-- ===== src/Hive/Messages.antt =====
-- Messages of jquery.hive.js: what `send` posts, and where a worker's direct message goes.
use joshlong_examples.Common.{
  ℕ, zero, suc, ◌≡◌, refl, sym, inl, inr, arith, false, append-nil, append_assoc, Option, none,
  some, List, [], ◌∷◌, ◌++◌, ◌==◌, if◌then◌else◌, truthy, get_or, length, get_elem?, length-set,
  Option-cases, Bool-cases, lookup, lookup-remove, lookup-nil, JQuery,
}
use joshlong_examples.Hive.Defs.{
  Callback, CreateOptions, Thread, State, Message, Sent, plain, object, Listener, direct, posted,
  received, ok, throw, not_an_object, create, destroy, get, add_message_listener, normalise, post,
  send, forwarded, callback_of, handle, send_each, changed, Event, other_than, initial,
}
use joshlong_examples.Hive.Registry.{
  IsValid, find, initial-IsValid, destroy-IsValid, find-other_than,
}
use joshlong_examples.Hive.Create.{create-IsValid}

-- The parts of the state that messages leave alone.
pub record SameRegistry (s s' : State) : Type 0 where
  pub options : s'.options ≡ s.options
  pub by_id : s'.threads_by_id ≡ s.threads_by_id
  pub threads : s'.threads ≡ s.threads
  pub cache : s'.fn_cache ≡ s.fn_cache
  pub last : s'.last_thread_int ≡ s.last_thread_int
  pub size : length s'.objects ≡ length s.objects

add_message_listener-SameRegistry :
    (t : Thread) (l : Listener) (s : State) → SameRegistry s (add_message_listener t l s)
unfolding add_message_listener
add_message_listener-SameRegistry t l s = elim (Option-cases (get_elem? s.objects t.ref)) [
  | inl e ↦ rw (e, add_message_listener) assumption
  | inr (m, e) ↦
      rw (e, add_message_listener)
        (assumption
          (length-set s.objects t.ref (record m { listeners = m.listeners ++ l ∷ [] }), refl))
]

post-SameRegistry : (t : Thread) (m : Message) (s : State) → SameRegistry s (post t m s)
unfolding post
post-SameRegistry t m s = elim (Option-cases (get_elem? s.objects t.ref)) [
  | inl e ↦ rw (e, post) assumption
  | inr (o, e) ↦
      rw (e, post)
        (record {
          options = refl;
          by_id = refl;
          threads = refl;
          cache = refl;
          last = refl;
          size = length-set s.objects t.ref (record o { last_message = some m });
        })
]

pub SameRegistry-trans : {s t u : State} → SameRegistry s t → SameRegistry t u → SameRegistry s u
SameRegistry-trans a b = ground arith

pub send-SameRegistry :
    (t : Thread) (sent : Sent) (c : Option Callback) (s : State) → SameRegistry s (send t sent c s)
unfolding send
send-SameRegistry t sent none s = post-SameRegistry t (normalise t sent) s
send-SameRegistry t sent (some f) s =
    SameRegistry-trans (add_message_listener-SameRegistry t (direct f) s)
      (post-SameRegistry t (normalise t sent) (add_message_listener t (direct f) s))

SameRegistry-IsValid : {s t : State} → SameRegistry s t → IsValid s → IsValid t
unfolding get
SameRegistry-IsValid {s} {t} same v = record {
  by_id = λ k. rw (same.by_id, same.threads) (v.by_id k);
  cached = λ k. rw (same.cache, same.by_id) (v.cached k);
  below = rw (same.threads, same.last) v.below;
  allocated = rw (same.threads, same.size) v.allocated;
  distinct = rw same.threads v.distinct;
}

handle-SameRegistry :
    (t : Thread) (l : Listener) (r : Message) (s : State) {s' : State}
    → handle t l r s ≡ ok s'
    → SameRegistry s s'
unfolding handle
handle-SameRegistry t l r s h = elim (Bool-cases (truthy r.send_to)) [
  | inl yes_to ↦ elim (Option-cases (get (get_or r.send_to 0) s)) [
    | inl e ↦ absurd (ground arith)
    | inr (u, e) ↦ ground (arith, send-SameRegistry u (object (forwarded r)) none s)
  ]
  | inr no_to ↦ ground arith
]

-- One call of the page or of the browser. A call that throws changes nothing, and is no step.
pub data Step (jq : JQuery) : State → State → Type 0 where
  creates :
      (o : CreateOptions) {s s' : State} {ts : List Thread}
      → create jq o s ≡ ok (ts, s')
      → Step jq s s'
  destroys : (id : Option ℕ) {s : State} → Step jq s (destroy jq id s).1
  sends : (t : Thread) (sent : Sent) (c : Option Callback) {s : State} → Step jq s (send t sent c s)
  handles :
      (t : Thread) (l : Listener) (r : Message) {s s' : State}
      → handle t l r s ≡ ok s'
      → Step jq s s'

pub data Reach (jq : JQuery) : State → Type 0 where
  loaded : Reach jq initial
  next : {s s' : State} → Reach jq s → Step jq s s' → Reach jq s'

Step-IsValid : (jq : JQuery) {s s' : State} → Step jq s s' → IsValid s → IsValid s'
Step-IsValid jq (creates o {s = s} h) v = (create-IsValid jq o s h v).0
Step-IsValid jq (destroys id {s = s}) v = destroy-IsValid jq id s v
Step-IsValid jq (sends t sent c {s = s}) v = SameRegistry-IsValid (send-SameRegistry t sent c s) v
Step-IsValid jq (handles t l r {s = s} h) v = SameRegistry-IsValid (handle-SameRegistry t l r s h) v

-- After any sequence of `create`, `destroy`, `send` and messages from workers, in any order, the
-- registry is valid: the list of threads and the objects keyed by id hold the same threads, no two
-- threads of the list share an id, the callback cache has the same ids, every id is at most the
-- last id, and every reference is allocated.
pub Reach-IsValid : (jq : JQuery) {s : State} → Reach jq s → IsValid s
Reach-IsValid jq loaded = initial-IsValid
Reach-IsValid jq (next r st) = Step-IsValid jq st (Reach-IsValid jq r)

-- `destroy(id)` with an id that is not 0: it returns the list that is left, in which no thread has
-- the id. `get(id)` and the callback cache have nothing more at the id, and `get` at every other id
-- `j` returns what it did.
pub get-destroy :
    (jq : JQuery) (n j : ℕ) (s : State)
    → let (rest, s') = destroy jq (some (suc n)) s in
      (rest ≡ s'.threads)
      × (find (suc n) s'.threads ≡ none)
      × (get j s' ≡ (if suc n == j then none else get j s))
      × (lookup (suc n) s'.fn_cache ≡ none)
unfolding destroy get
get-destroy jq n j s = (
  refl,
  rw
      (
        jq.map_lem Thread Thread s.threads (other_than (suc n)),
        find-other_than (suc n) (suc n) s.threads,
      )
      (ground arith),
  lookup-remove (suc n) j s.threads_by_id,
  rw (lookup-remove (suc n) (suc n) s.fn_cache) (ground arith),
)

-- `destroy(0)` does what `destroy()` does: it empties the whole registry, and `get` finds no worker
-- at any id `k`, though 0 is the id of the first worker that `create` makes.
destroy-zero :
    (jq : JQuery) (s : State) (k : ℕ)
    → (destroy jq (some 0) s ≡ destroy jq none s)
      × ((destroy jq (some 0) s).1.threads ≡ [])
      × (get k (destroy jq (some 0) s).1 ≡ none)
unfolding destroy get
destroy-zero jq s k = (refl, refl, lookup-nil k)

post-log : (t : Thread) (m : Message) (s : State) → (post t m s).log ≡ s.log ++ posted t.ref m ∷ []
unfolding post
post-log t m s = ground arith

add_message_listener-log :
    (t : Thread) (l : Listener) (s : State) → (add_message_listener t l s).log ≡ s.log
unfolding add_message_listener
add_message_listener-log t l s = ground arith

pub send-log :
    (t : Thread) (sent : Sent) (c : Option Callback) (s : State)
    → (send t sent c s).log ≡ s.log ++ posted t.ref (normalise t sent) ∷ []
unfolding send
send-log t sent none s = post-log t (normalise t sent) s
send-log t sent (some f) s = rw (
  post-log t (normalise t sent) (add_message_listener t (direct f) s),
  add_message_listener-log t (direct f) s,
)

normalise-worker_id : (t : Thread) (sent : Sent) → (normalise t sent).worker_id ≡ some t.id
unfolding normalise
normalise-worker_id t (plain x) = refl
normalise-worker_id t (object m) = refl

normalise-send_from : (t : Thread) (sent : Sent) → (k : ℕ) × ((normalise t sent).send_from ≡ some k)
unfolding normalise
normalise-send_from t (plain x) = (t.id, refl)
normalise-send_from t (object m) = sender m.send_from
  where
    sender : (o : Option ℕ) → (k : ℕ) × ((if truthy o then o else some t.id) ≡ some k)
    sender none = (t.id, refl)
    sender (some zero) = (t.id, refl)
    sender (some (suc k)) = (suc k, refl)

-- `send` posts exactly one message, to the worker that it is called on, and changes nothing of the
-- registry. The message has the worker's id as `WORKER_ID`, and names a sender in any case.
send-posts :
    (t : Thread) (sent : Sent) (c : Option Callback) (s : State)
    → SameRegistry s (send t sent c s)
      × (m : Message) × ((send t sent c s).log ≡ s.log ++ posted t.ref m ∷ [])
      × (m.worker_id ≡ some t.id)
      × (k : ℕ) × (m.send_from ≡ some k)
send-posts t sent c s =
    let (k, e) = normalise-send_from t sent in
    (
      send-SameRegistry t sent c s,
      normalise t sent,
      send-log t sent c s,
      normalise-worker_id t sent,
      k,
      e,
    )

pub handle_to :
    (t u : Thread) (l : Listener) (r : Message) (s : State) (n : ℕ)
    → r.send_to ≡ some (suc n)
    → get (suc n) s ≡ some u
    → handle t l r s ≡ ok (send u (object (forwarded r)) none s)
unfolding handle
handle_to t u l r s n to found = ground arith

-- A worker's message that names another worker of the registry, by an id that is not 0, is posted
-- to that worker with its text and its addressee unchanged and with a sender other than 0 kept.
-- No callback of the page runs, and the registry stays as it is.
pub handle-forwards :
    (t u : Thread) (l : Listener) (r : Message) (s : State) (n k : ℕ)
    → r.send_to ≡ some (suc n)
    → get (suc n) s ≡ some u
    → r.send_from ≡ some (suc k)
    → (s' : State) × (handle t l r s ≡ ok s')
      × SameRegistry s s'
      × (m : Message) × (s'.log ≡ s.log ++ posted u.ref m ∷ [])
      × (m.message ≡ r.message)
      × (m.send_to ≡ r.send_to)
      × (m.send_from ≡ r.send_from)
      × (m.worker_id ≡ some u.id)
unfolding normalise forwarded
handle-forwards t u l r s n k to found from =
    let out = object (forwarded r) in
    (
      send u out none s,
      handle_to t u l r s n to found,
      send-SameRegistry u out none s,
      normalise u out,
      send-log u out none s,
      refl,
      refl,
      rw from,
      refl,
    )

-- A worker's message that names an id that the registry does not have, other than 0, throws.
-- A message with no addressee runs the callback of the listener, once, and posts nothing.
handle_other_branches :
    (t : Thread) (l : Listener) (r : Message) (s : State)
    → ((n : ℕ)
        → r.send_to ≡ some (suc n)
        → get (suc n) s ≡ none
        → handle t l r s ≡ throw not_an_object)
      × (truthy r.send_to ≡ false
          → handle t l r s
            ≡ ok (record s { log = s.log ++ received (callback_of s l) t.ref r ∷ [] }))
unfolding handle
handle_other_branches t l r s = (λ n to found. rw (to, found), λ h. rw h)

-- What worker 0 sends to another worker of the registry arrives under the addressee's own id as
-- its sender: the id 0 is taken for a missing one when the message is handed on.
forward_from_zero :
    (t u : Thread) (l : Listener) (r : Message) (s : State) (n : ℕ)
    → r.send_to ≡ some (suc n)
    → get (suc n) s ≡ some u
    → r.send_from ≡ some 0
    → (s' : State) × (handle t l r s ≡ ok s')
      × (m : Message) × (s'.log ≡ s.log ++ posted u.ref m ∷ [])
      × (m.send_from ≡ some u.id)
unfolding normalise forwarded
forward_from_zero t u l r s n to found from =
    let out = object (forwarded r) in
    (
      send u out none s,
      handle_to t u l r s n to found,
      normalise u out,
      send-log u out none s,
      rw from,
    )

-- A message that a worker addresses to worker 0 is not handed on, whether or not the registry has
-- a worker 0: it runs the page's callback, as one with no addressee does.
zero_gets_no_messages :
    (t : Thread) (l : Listener) (r : Message) (s : State)
    → r.send_to ≡ some 0
    → handle t l r s ≡ ok (record s { log = s.log ++ received (callback_of s l) t.ref r ∷ [] })
unfolding handle
zero_gets_no_messages t l r s to = rw to

-- What `$(threads).send(message)` posts: of an object that names no sender, every message names the
-- first thread for it.
abbrev pub posts : List Thread → Sent → List Event
posts [] sent = []
posts (t ∷ ts) sent = posted t.ref (normalise t sent) ∷ posts ts (changed t sent)

-- `$(threads).send(message)` posts one message to each thread of the selection, in order, each made
-- of what the one before has left, and changes nothing of the registry.
send_each-posts :
    (ts : List Thread) (sent : Sent) (c : Option Callback) (s : State)
    → ((send_each ts sent c s).log ≡ s.log ++ posts ts sent)
      × SameRegistry s (send_each ts sent c s)
unfolding send_each
send_each-posts [] sent c s = (sym (append-nil s.log), assumption refl)
send_each-posts (t ∷ ts) sent c s =
    let (logs, same) = send_each-posts ts (changed t sent) c (send t sent c s) in
    (
      rw (logs, send-log t sent c s, append_assoc),
      SameRegistry-trans (send-SameRegistry t sent c s) same,
    )
