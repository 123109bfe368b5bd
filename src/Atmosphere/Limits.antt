-- ===== src/Atmosphere/Limits.antt =====
-- How often the client of jquery.atmosphere.js connects.
use joshlong_examples.Common.{
  ℕ, ◌+◌, ◌≤◌, ◌<◌, ◌≡◌, refl, sym, inl, inr, arith, Bool, true, false, Option, none, some, List,
  [], ◌∷◌, ◌++◌, ltb, ◌==◌, if◌then◌else◌, Bool-cases, Option-cases, is_some, length, get_elem?,
  get_elem?-set, get_elem?-snoc, get_elem?-length,
}
use joshlong_examples.Atmosphere.Defs.{
  Request, Response, Connection, Event, reconnections_used_up, State, initial, emit, set_response,
  update_request,
}
use joshlong_examples.Atmosphere.Transport.{open_connection}
use joshlong_examples.Atmosphere.Publish.{new_request}

-- How many connections were opened with the request at an index.
abbrev pub opens : ℕ → List Connection → ℕ
opens i [] = 0
opens i (c ∷ cs) = (if c.request == i then 1 else 0) + opens i cs

opens-append : (i : ℕ) (cs ds : List Connection) → opens i (cs ++ ds) ≡ opens i cs + opens i ds
opens-append i [] ds = omega arith
opens-append i (c ∷ cs) ds = omega (arith, opens-append i cs ds)

-- What holds of the request at an index, if there is one.
abbrev pub Within : Option Request → ℕ → Type 0
Within none n = n ≡ 0
Within (some r) n = (n ≤ r.request_count) × (n ≤ r.max_request)

pub record IsBounded (s : State) : Type 0 where
  pub within : (i : ℕ) → Within (get_elem? s.requests i) (opens i s.connections)

-- The parts of the state on which the bound rests.
pub record SameRequests (s t : State) : Type 0 where
  pub requests : t.requests ≡ s.requests
  pub connections : t.connections ≡ s.connections

pub SameRequests-IsBounded : {s t : State} → SameRequests s t → IsBounded s → IsBounded t
SameRequests-IsBounded {s} {t} e v = record {
  within = λ i. rw (e.requests, e.connections) (v.within i);
}

pub initial-IsBounded : IsBounded initial
unfolding initial
initial-IsBounded = record { within = λ i. refl }

pub new_request-IsBounded : (r : Request) (s : State) → IsBounded s → IsBounded (new_request r s)
unfolding new_request
new_request-IsBounded r s v = record {
  within = λ i. elim (Bool-cases (i == length s.requests)) [
    | inl t ↦ rw (get_elem?-snoc s.requests r i, t) (fresh i t)
    | inr f ↦ rw (get_elem?-snoc s.requests r i, f) (v.within i)
  ];
}
  where
    fresh : (i : ℕ) → (i == length s.requests) ≡ true → Within (some r) (opens i s.connections)
    fresh i t =
        let e : i ≡ length s.requests = ground arith in
        let n : get_elem? s.requests i ≡ none = rw e (get_elem?-length s.requests) in
        let w : opens i s.connections ≡ 0 = rw n at (v.within i) in omega arith

-- A change of a request that lowers neither its count nor its limit.
pub update_request-IsBounded :
    (j : ℕ) (f : Request → Request) (s : State)
    → ((r : Request)
        → (r.request_count ≤ (f r).request_count) × (r.max_request ≤ (f r).max_request))
    → IsBounded s
    → IsBounded (update_request j f s)
unfolding update_request
update_request-IsBounded j f s grows v = elim (Option-cases (get_elem? s.requests j)) [
  | inl e ↦ rw (e, update_request) v
  | inr (r, e) ↦
      rw (e, update_request)
        (record {
          within = λ i. elim (Bool-cases (j == i)) [
            | inl t ↦ rw (get_elem?-set s.requests j i (f r) e, t) (raised i r e t)
            | inr n ↦ rw (get_elem?-set s.requests j i (f r) e, n) (v.within i)
          ];
        })
]
  where
    raised :
        (i : ℕ) (r : Request)
        → get_elem? s.requests j ≡ some r
        → (j == i) ≡ true
        → Within (some (f r)) (opens i s.connections)
    raised i r e t =
        let same : get_elem? s.requests i ≡ some r = rw (sym (the_same t)) e in
        let w : Within (some r) (opens i s.connections) = rw same at (v.within i) in
        omega (arith, grows r)
      where
        the_same : (j == i) ≡ true → j ≡ i
        the_same t = ground arith

abbrev counted : ℕ → State → State
counted i s = update_request i (λ q. record q { request_count = q.request_count + 1 }) s

counted-IsBounded : (i : ℕ) (s : State) → IsBounded s → IsBounded (counted i s)
counted-IsBounded i s v =
    update_request-IsBounded i (λ q. record q { request_count = q.request_count + 1 }) s
      (λ r. (omega arith, omega arith)) v

-- A connection opened with a request that was below its limit, after the count.
connect-IsBounded :
    (i : ℕ) (c : Connection) (r : Request) (s : State)
    → get_elem? s.requests i ≡ some r
    → c.request ≡ i
    → r.request_count < r.max_request
    → IsBounded s
    → IsBounded (record (counted i s) { connections = s.connections ++ c ∷ [] })
unfolding update_request
connect-IsBounded i c r s e ci below v =
    rw (e, update_request)
      (record {
        within = λ j. elim (Bool-cases (i == j)) [
          | inl t ↦
              rw
                (
                  get_elem?-set s.requests i j (record r { request_count = r.request_count + 1 }) e,
                  t,
                )
                (one_more j t)
          | inr n ↦
              rw
                (
                  get_elem?-set s.requests i j (record r { request_count = r.request_count + 1 }) e,
                  n,
                  none_more j n,
                )
                (v.within j)
        ];
      })
  where
    none_more :
        (j : ℕ) → (i == j) ≡ false → opens j (s.connections ++ c ∷ []) ≡ opens j s.connections
    none_more j n =
        let split = opens-append j s.connections (c ∷ []) in
        let other : (c.request == j) ≡ false = rw ci n in
        let nothing : opens j (c ∷ []) ≡ 0 = rw other refl in omega arith

    one_more :
        (j : ℕ)
        → (i == j) ≡ true
        → (opens j (s.connections ++ c ∷ []) ≤ r.request_count + 1)
          × (opens j (s.connections ++ c ∷ []) ≤ r.max_request)
    one_more j t =
        let split = opens-append j s.connections (c ∷ []) in
        let own : (c.request == j) ≡ true = rw ci t in
        let one : opens j (c ∷ []) ≡ 1 = rw own refl in
        let same : i ≡ j = ground arith in
        let here : get_elem? s.requests j ≡ some r = rw (sym same) e in
        let w : Within (some r) (opens j s.connections) = rw here at (v.within j) in
        (omega arith, omega arith)

pub emit-IsBounded : (e : Event) (s : State) → IsBounded s → IsBounded (emit e s)
unfolding emit
emit-IsBounded e s v = SameRequests-IsBounded (record { requests = refl; connections = refl }) v

pub set_response-IsBounded : (r : Response) (s : State) → IsBounded s → IsBounded (set_response r s)
unfolding set_response
set_response-IsBounded r s v =
    SameRequests-IsBounded (record { requests = refl; connections = refl }) v

pub open_connection-IsBounded :
    (i : ℕ) (r : Request) (s : State)
    → get_elem? s.requests i ≡ some r
    → IsBounded s
    → IsBounded (open_connection i r s)
unfolding open_connection emit
open_connection-IsBounded i r s e v = elim (Bool-cases (ltb r.request_count r.max_request)) [
  | inl t ↦
      let connected =
        connect-IsBounded i (record { request = i; transport = r.transport }) r s e refl (below t)
          v in
      elim (Bool-cases r.suspend) [
        | inl k ↦
            rw (t, k)
              (SameRequests-IsBounded (record { requests = refl; connections = refl })
                (update_request-IsBounded i (λ q. record q { timer = some (length s.connections) })
                  _ (λ q. (omega arith, omega arith))
                  (SameRequests-IsBounded (record { requests = refl; connections = refl })
                    connected)))
        | inr k ↦
            rw (t, k)
              (SameRequests-IsBounded (record { requests = refl; connections = refl }) connected)
      ]
  | inr n ↦ rw n (logged (is_some s.log_level))
]
  where
    below : ltb r.request_count r.max_request ≡ true → r.request_count < r.max_request
    below t = ground arith

    logged :
        (c : Bool) → IsBounded (if c then emit reconnections_used_up (counted i s) else counted i s)
    logged true =
        SameRequests-IsBounded (record { requests = refl; connections = refl })
          (counted-IsBounded i s v)
    logged false = counted-IsBounded i s v
