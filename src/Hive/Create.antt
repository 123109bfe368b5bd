-- ===== src/Hive/Create.antt =====
-- `create` of jquery.hive.js: which threads it makes, and when it throws.
use joshlong_examples.Common.{
  ℕ, zero, suc, ◌+◌, ◌-◌, ◌≤◌, ◌<◌, ◌≡◌, ◌↔◌, refl, sym, ap, ◌∙◌, inl, inr, arith, some, List, [],
  ◌∷◌, ◌++◌, append-nil, append_assoc, ltb, Bool-cases, get_or, length, All, All-append, All-map,
  length-append, Text, JQuery,
}
use joshlong_examples.Hive.Defs.{
  Callback, CreateOptions, Options, wrapped, callback_of, lacks_file, Thread, State, ok, throw,
  no_worker_file, start_thread, start_threads, requested, first_id, loop_bound, start_all,
  merge_options, extend_options, create, get,
}
use joshlong_examples.Hive.Registry.{IsValid, start_thread-IsValid, get_own}

-- `n` threads with ids from `i` and references from `r`.
pub fresh_threads : ℕ → ℕ → ℕ → Text → Callback → List Thread
fresh_threads zero i r file onerror = []
fresh_threads (suc n) i r file onerror =
    record { ref = r; id = i; file = file; onerror = onerror }
    ∷ fresh_threads n (i + 1) (r + 1) file onerror

start_threads_lem :
    (n i : ℕ) (s : State)
    → ((start_threads n i s).threads
        ≡ s.threads ++ fresh_threads n i (length s.objects) s.options.worker s.options.error)
      × ((start_threads n i s).options ≡ s.options)
unfolding start_threads start_thread fresh_threads
start_threads_lem zero i s = (sym (append-nil s.threads), refl)
start_threads_lem (suc n) i s =
    let (ts, os) = start_threads_lem n (i + 1) (start_thread i s) in
    (rw (ts, length-append s.objects _, append_assoc), os)

start_thread-fresh :
    (i : ℕ) (s : State)
    → All (λ t. t.id < i) s.threads
    → All (λ t. t.id < i + 1) (start_thread i s).threads
unfolding start_thread
start_thread-fresh i s fresh =
    All-append _ s.threads _
      (All-map (λ t. t.id < i) (λ t. t.id < i + 1) (λ t h. omega arith) s.threads fresh)
      (omega arith, tt)

start_threads-IsValid :
    (n i : ℕ) (s : State)
    → All (λ t. t.id < i) s.threads
    → IsValid s
    → IsValid (start_threads n i s)
unfolding start_threads
start_threads-IsValid zero i s fresh v = v
start_threads-IsValid (suc n) i s fresh v =
    start_threads-IsValid n (i + 1) (start_thread i s) (start_thread-fresh i s fresh)
      (start_thread-IsValid i s fresh v)

first_id-fresh : (s : State) → IsValid s → All (λ t. t.id < first_id s) s.threads
unfolding first_id
first_id-fresh s v = elim (Bool-cases (ltb 0 (length s.threads))) [
  | inl many ↦ rw many (
      All-map (λ t. t.id ≤ s.last_thread_int) (λ t. t.id < s.last_thread_int + 1)
        (λ t h. omega arith) s.threads v.below)
  | inr empty ↦ absent s.threads (ground arith)
]
  where
    absent : (ts : List Thread) → length ts ≡ 0 → All (λ t. t.id < first_id s) ts
    absent [] h = tt
    absent (t ∷ ts) h = absurd (omega arith)

-- The loop makes as many rounds as threads were asked for.
rounds :
    (jq : JQuery) (o : CreateOptions) (s : State)
    → (merge_options jq o s).count - first_id s ≡ requested o
unfolding merge_options first_id loop_bound
rounds jq o s = ground arith

start_all-threads :
    (jq : JQuery) (o : CreateOptions) (s : State)
    → (start_all jq o s).threads
      ≡ s.threads
        ++ fresh_threads
            (requested o)
            (first_id s)
            (length s.objects)
            (jq.extend Text s.options.worker o.worker)
            (jq.extend Callback s.options.error o.error)
unfolding start_all merge_options extend_options
start_all-threads jq o s = rw (rounds jq o s) (start_threads_lem (requested o) (first_id s) _).0

start_all-IsValid :
    (jq : JQuery) (o : CreateOptions) (s : State) → IsValid s → IsValid (start_all jq o s)
unfolding start_all get
start_all-IsValid jq o s v =
    let w =
      start_threads-IsValid ((merge_options jq o s).count - first_id s) (first_id s)
        (record s { options = merge_options jq o s }) (first_id-fresh s v)
        (record {
          by_id = v.by_id;
          cached = v.cached;
          below = v.below;
          allocated = v.allocated;
          distinct = v.distinct;
        }) in
    record {
      by_id = w.by_id;
      cached = w.cached;
      below = w.below;
      allocated = w.allocated;
      distinct = w.distinct;
    }

-- What a successful `create` computes.
create-eq-ok :
    (jq : JQuery) (o : CreateOptions) (s : State) {ts : List Thread} {s' : State}
    → create jq o s ≡ ok (ts, s')
    → (ts ≡ (start_all jq o s).threads) × (s' ≡ start_all jq o s)
unfolding create
create-eq-ok jq o s h = ground arith

-- A successful `create` returns the threads that there were, then as many new ones as were asked
-- for (one if none were), with consecutive ids: from 0 where there was no thread, and else from
-- the last id plus one. The new threads run the worker file and the error handler of the merged
-- options, and the returned list is the list of the registry.
pub create-threads :
    (jq : JQuery) (o : CreateOptions) (s : State) {ts : List Thread} {s' : State}
    → create jq o s ≡ ok (ts, s')
    → (s'.threads ≡ ts)
      × (ts
          ≡ s.threads
            ++ fresh_threads
                (requested o)
                (first_id s)
                (length s.objects)
                (jq.extend Text s.options.worker o.worker)
                (jq.extend Callback s.options.error o.error))
create-threads jq o s h =
    let (e, e') = create-eq-ok jq o s h in (rw (e, e'), e ∙ start_all-threads jq o s)

-- A successful `create` on a valid registry leaves a valid registry, in which `get` returns each
-- thread of the list at its id.
pub create-IsValid :
    (jq : JQuery) (o : CreateOptions) (s : State) {ts : List Thread} {s' : State}
    → create jq o s ≡ ok (ts, s')
    → IsValid s
    → IsValid s' × All (λ t. get t.id s' ≡ some t) s'.threads
create-IsValid jq o s h v =
    rw (create-eq-ok jq o s h).1
      (let w = start_all-IsValid jq o s v in (w, get_own (start_all jq o s) w))

start_all-options :
    (jq : JQuery) (o : CreateOptions) (s : State)
    → (start_all jq o s).options ≡ merge_options jq o s
unfolding start_all
start_all-options jq o s =
    let i = first_id s in
    let m = merge_options jq o s in (start_threads_lem (m.count - i) i (record s { options = m })).1

start_all-worker :
    (jq : JQuery) (o : CreateOptions) (s : State)
    → (start_all jq o s).options.worker ≡ jq.extend Text s.options.worker o.worker
unfolding merge_options extend_options
start_all-worker jq o s = ap (λ (p : Options). p.worker) (start_all-options jq o s)

start_all-receive :
    (jq : JQuery) (o : CreateOptions) (s : State)
    → (start_all jq o s).options.receive ≡ jq.extend Callback s.options.receive o.receive
unfolding merge_options extend_options
start_all-receive jq o s = ap (λ (p : Options). p.receive) (start_all-options jq o s)

-- A call of `create` that names a worker file succeeds, and so does every call after it, whatever
-- its options, since the file is kept.
create_total :
    (jq : JQuery) (o o' : CreateOptions) (s : State) {c : ℕ} {file : Text}
    → o.worker ≡ some (c ∷ file)
    → (ts : List Thread) × (s' : State) × (create jq o s ≡ ok (ts, s'))
      × (us : List Thread) × (s'' : State) × (create jq o' s' ≡ ok (us, s''))
unfolding create lacks_file
create_total jq o o' s {c} {file} h =
    let s' = start_all jq o s in
    (
      s'.threads,
      s',
      ground arith,
      (start_all jq o' s').threads,
      start_all jq o' s',
      rw (start_all-worker jq o s, h, jq.extend_present Text s.options.worker (c ∷ file)),
    )

-- `create` throws exactly when no worker file is known: neither kept from earlier calls nor named
-- by this one.
create-eq-throw_iff :
    (jq : JQuery) (o : CreateOptions) (s : State)
    → (create jq o s ≡ throw no_worker_file) ↔ ((s.options.worker ≡ []) × (get_or o.worker [] ≡ []))
unfolding create lacks_file
create-eq-throw_iff jq o s = (λ h. ground arith, λ h. ground arith)

-- A successful `create` that names a callback `receive` makes it the callback of every wrapped
-- listener, those of the workers of earlier calls included.
create-rebinds :
    (jq : JQuery) (o : CreateOptions) (s : State) {ts : List Thread} {s' : State} {f : Callback}
    → create jq o s ≡ ok (ts, s')
    → o.receive ≡ some f
    → callback_of s' wrapped ≡ f
unfolding callback_of
create-rebinds jq o s {f = f} h e = rw (
  (create-eq-ok jq o s h).1,
  start_all-receive jq o s,
  e,
  jq.extend_present Callback s.options.receive f,
)
