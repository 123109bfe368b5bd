-- ===== src/Hive/Registry.antt =====
-- The registry of jquery.hive.js between two calls: the list of threads, the objects keyed by
-- id and the last id agree.
use joshlong_examples.Common.{
  ℕ, suc, ◌≤◌, ◌<◌, ◌≡◌, refl, sym, ap, ◌∙◌, inl, inr, arith, Option, none, some, List, [], ◌∷◌,
  ◌++◌, ◌==◌, ==_iff, if◌then◌else◌, is_some, Bool-cases, length, All, All-append, All-map,
  length-append, lookup, lookup-nil, lookup-insert, lookup-remove, JQuery, filter_map,
}
use joshlong_examples.Hive.Defs.{Thread, State, initial, start_thread, other_than, destroy, get}

-- The first thread of a list with an id.
abbrev pub find : ℕ → List Thread → Option Thread
find k [] = none
find k (t ∷ ts) = if t.id == k then some t else find k ts

abbrev pub Distinct : List Thread → Type 0
Distinct [] = Unit
Distinct (t ∷ ts) = (find t.id ts ≡ none) × Distinct ts

pub record IsValid (s : State) : Type 0 where
  pub by_id : (k : ℕ) → get k s ≡ find k s.threads
  pub cached : (k : ℕ) → is_some (lookup k s.fn_cache) ≡ is_some (get k s)
  pub below : All (λ t. t.id ≤ s.last_thread_int) s.threads
  pub allocated : All (λ t. t.ref < length s.objects) s.threads
  pub distinct : Distinct s.threads

pub initial-IsValid : IsValid initial
unfolding initial get
initial-IsValid = record {
  by_id = λ k. lookup-nil k;
  cached = λ k. rw (lookup-nil k, lookup-nil k);
  below = tt;
  allocated = tt;
  distinct = tt;
}

find-append :
    (k : ℕ) (ts us : List Thread)
    → find k (ts ++ us) ≡ (if is_some (find k ts) then find k ts else find k us)
find-append k [] us = refl
find-append k (t ∷ ts) us = ground (arith, find-append k ts us)

find_fresh : (i : ℕ) (ts : List Thread) → All (λ t. t.id < i) ts → find i ts ≡ none
find_fresh i [] h = refl
find_fresh i (t ∷ ts) h = ground (arith, find_fresh i ts h.1)

Distinct-snoc :
    (ts : List Thread) (t : Thread) → Distinct ts → find t.id ts ≡ none → Distinct (ts ++ t ∷ [])
Distinct-snoc [] t d f = (refl, tt)
Distinct-snoc (u ∷ ts) t d f =
    (rw (find-append u.id ts (t ∷ []), d.0) (ground arith), Distinct-snoc ts t d.1 (ground arith))

own_cons :
    (t u : Thread) (ts : List Thread)
    → find t.id ts ≡ none
    → find u.id ts ≡ some u
    → find u.id (t ∷ ts) ≡ some u
own_cons t u ts f h = elim (Bool-cases (t.id == u.id)) [
  | inl same ↦ let e : find t.id ts ≡ find u.id ts = ap (λ k. find k ts) ((==_iff _ _).0 same) in cc
  | inr other ↦ rw other h
]

find_own : (ts : List Thread) → Distinct ts → All (λ t. find t.id ts ≡ some t) ts
find_own [] d = tt
find_own (t ∷ ts) d = (
  ground arith,
  All-map (λ u. find u.id ts ≡ some u) (λ u. find u.id (t ∷ ts) ≡ some u)
      (λ u h. own_cons t u ts d.0 h) ts (find_own ts d.1),
)

-- In a valid registry `get` returns each thread of the list at its id.
pub get_own : (s : State) → IsValid s → All (λ t. get t.id s ≡ some t) s.threads
get_own s v =
    All-map (λ t. find t.id s.threads ≡ some t) (λ t. get t.id s ≡ some t) (λ t h. v.by_id t.id ∙ h)
      s.threads (find_own s.threads v.distinct)

-- The body of the loop of `create` keeps the registry valid at an id above all others.
pub start_thread-IsValid :
    (i : ℕ) (s : State) → All (λ t. t.id < i) s.threads → IsValid s → IsValid (start_thread i s)
unfolding start_thread get
start_thread-IsValid i s fresh v = record {
  by_id = λ k.
      rw (lookup-insert i k _ s.threads_by_id, find-append k s.threads _, v.by_id k)
        (ground (arith, find_fresh i s.threads fresh));
  cached = λ k.
      rw (lookup-insert i k _ s.fn_cache, lookup-insert i k _ s.threads_by_id)
        (ground (arith, v.cached k));
  below =
      All-append _ s.threads _
        (All-map (λ t. t.id < i) (λ t. t.id ≤ i) (λ t h. omega arith) s.threads fresh)
        (omega arith, tt);
  allocated =
      All-append _ s.threads _
        (All-map (λ t. t.ref < length s.objects) _ (λ t h. omega (arith, length-append s.objects _))
          s.threads v.allocated)
        (omega (arith, length-append s.objects _), tt);
  distinct = Distinct-snoc s.threads _ v.distinct (find_fresh i s.threads fresh);
}

module _ (k : ℕ) where
  -- The list that `destroy` keeps.
  pub find-other_than :
      (j : ℕ) (ts : List Thread)
      → find j (filter_map (other_than k) ts) ≡ (if k == j then none else find j ts)
  unfolding other_than
  find-other_than j [] = ground arith
  find-other_than j (t ∷ ts) = ground (arith, find-other_than j ts)

  All-other_than :
      (P : Thread → Type 0) (ts : List Thread) → All P ts → All P (filter_map (other_than k) ts)
  unfolding other_than
  All-other_than P [] h = tt
  All-other_than P (t ∷ ts) h = elim (Bool-cases (t.id == k)) [
    | inl same ↦ rw (same, All) (All-other_than P ts h.1)
    | inr other ↦ rw (other, All) (h.0, All-other_than P ts h.1)
  ]

  Distinct-other_than : (ts : List Thread) → Distinct ts → Distinct (filter_map (other_than k) ts)
  unfolding other_than
  Distinct-other_than [] d = tt
  Distinct-other_than (t ∷ ts) d = elim (Bool-cases (t.id == k)) [
    | inl same ↦ rw (same, Distinct) (Distinct-other_than ts d.1)
    | inr other ↦
        rw (other, Distinct)
          (rw (find-other_than t.id ts) (ground (arith, d.0)), Distinct-other_than ts d.1)
  ]

-- `destroy` keeps the registry valid, with an id and without.
pub destroy-IsValid :
    (jq : JQuery) (id : Option ℕ) (s : State) → IsValid s → IsValid (destroy jq id s).1
unfolding destroy get
destroy-IsValid jq (some (suc n)) s v =
    rw (jq.map_lem Thread Thread s.threads (other_than (suc n))) (record {
      by_id = λ j.
          rw (lookup-remove (suc n) j s.threads_by_id, find-other_than (suc n) j s.threads)
            (rw (v.by_id j));
      cached = λ j.
          rw (lookup-remove (suc n) j s.fn_cache, lookup-remove (suc n) j s.threads_by_id)
            (ground (arith, v.cached j));
      below = All-other_than (suc n) _ s.threads v.below;
      allocated = All-other_than (suc n) _ s.threads v.allocated;
      distinct = Distinct-other_than (suc n) s.threads v.distinct;
    })
destroy-IsValid jq _ s v = record {
  by_id = λ k. lookup-nil k;
  cached = λ k. ap is_some (lookup-nil k) ∙ sym (ap is_some (lookup-nil k));
  below = tt;
  allocated = tt;
  distinct = tt;
}
