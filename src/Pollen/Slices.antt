-- ===== src/Pollen/Slices.antt =====
-- When `slice` of jquery.hive.pollen.js ends, and what it returns.
use joshlong_examples.Common.{
  ℕ, zero, suc, ◌+◌, ◌-◌, ◌≤◌, ◌<◌, ◌≡◌, ◌↔◌, refl, inl, inr, arith, true, none, some, List, [],
  ◌∷◌, ltb, length, get_elem?, Bool-cases, Option-cases,
}
use joshlong_examples.Common.Int.{ℤ, pos, negsuc}
use joshlong_examples.Pollen.Query.{clamp, end_or, slice_loop, slice}

-- What stands in a list at an index, and at every further index that a step leads to before the stop.
abbrev pub At : {A : Type 0} → List A → ℕ → ℕ → ℕ → List A → Type 0
At xs i stop step [] = stop ≤ i
At xs i stop step (r ∷ rs) = (i < stop) × (get_elem? xs i ≡ some r) × At xs (i + step) stop step rs

get_elem?-lt :
    {A : Type 0} (xs : List A) (i : ℕ) → i < length xs → (x : A) × (get_elem? xs i ≡ some x)
get_elem?-lt [] i h = absurd (omega arith)
get_elem?-lt (x ∷ xs) zero h = (x, refl)
get_elem?-lt (x ∷ xs) (suc i) h = get_elem?-lt xs i (omega arith)

slice_loop-At :
    {A : Type 0} (fuel : ℕ) (xs : List A) (i stop step : ℕ)
    → 0 < step
    → stop ≤ length xs
    → stop - i < fuel
    → (r : List A) × (slice_loop fuel xs i stop step ≡ some r) × At xs i stop step r
unfolding slice_loop
slice_loop-At zero xs i stop step s b m = absurd (omega arith)
slice_loop-At (suc fuel) xs i stop step s b m = elim (Bool-cases (ltb i stop)) [
  | inl t ↦
      let before : i < stop = ground arith in
      let (x, e) = get_elem?-lt xs i (omega arith) in
      let (r, ran, rest) = slice_loop-At fuel xs (i + step) stop step s b (omega arith) in
      (x ∷ r, rw (t, e, ran) refl, (before, e, rest))
  | inr n ↦ ([], rw n refl, ground arith)
]

clamp-le : (len : ℕ) (z : ℤ) → clamp len z ≤ len
unfolding clamp
clamp-le len (pos n) = ground arith
clamp-le len (negsuc n) = omega arith

-- Whether an index is at or after a start: from the front, or counted from the back where the start is
-- below 0.
abbrev pub FromStart : ℤ → ℕ → ℕ → Type 0
FromStart (pos n) len k = n ≤ k
FromStart (negsuc n) len k = len ≤ k + suc n

-- Whether an index of a list is before an end: 0 is no end, and an end below 0 is counted from the back.
abbrev pub BeforeEnd : ℤ → ℕ → ℕ → Type 0
BeforeEnd (pos zero) len k = k < len
BeforeEnd (pos (suc n)) len k = (k < suc n) × (k < len)
BeforeEnd (negsuc n) len k = k + suc n < len

clamp-FromStart :
    (z : ℤ) (len k : ℕ) → ((clamp len z ≤ k) × (k < len)) ↔ (FromStart z len k × (k < len))
unfolding clamp
clamp-FromStart (pos n) len k = (λ (e, h). (ground arith, h), λ (e, h). (ground arith, h))
clamp-FromStart (negsuc n) len k = (λ (e, h). (omega arith, h), λ (e, h). (omega arith, h))

clamp-BeforeEnd : (z : ℤ) (len k : ℕ) → (k < clamp len (end_or len z)) ↔ BeforeEnd z len k
unfolding clamp end_or
clamp-BeforeEnd (pos zero) len k = (λ e. ground arith, λ e. ground arith)
clamp-BeforeEnd (pos (suc n)) len k = (λ e. ground arith, λ e. ground arith)
clamp-BeforeEnd (negsuc n) len k = (λ e. omega arith, λ e. omega arith)

-- `slice` with a positive step ends within one round more than the list has elements, whatever the
-- signs and sizes of the bounds: it returns the elements at a first index and at each further index
-- that a step leads to, as long as they are before a last one. Of the indices of the list, those from
-- the first on are those at or after the start, counted from the back where it is below 0, and those
-- before the last one are those before the end, which is counted from the back where it is below 0
-- and is none where it is 0.
pub slice_total :
    {A : Type 0} (xs : List A) (start stop : ℤ) (step : ℕ)
    → 0 < step
    → (i j : ℕ) × (r : List A) × (slice (suc (length xs)) xs start stop step ≡ some r)
      × At xs i j step r
      × (j ≤ length xs)
      × ((k : ℕ)
          → (((i ≤ k) × (k < length xs)) ↔ (FromStart start (length xs) k × (k < length xs)))
            × ((k < j) ↔ BeforeEnd stop (length xs) k))
unfolding slice
slice_total xs start stop step s =
    let len = length xs in
    let i = clamp len start in
    let j = clamp len (end_or len stop) in
    let bound = clamp-le len (end_or len stop) in
    let (r, ran, at) = slice_loop-At (suc len) xs i j step s bound (omega arith) in
    (i, j, r, ran, at, bound, λ k. (clamp-FromStart start len k, clamp-BeforeEnd stop len k))

slice_loop-zero :
    {A : Type 0} (fuel : ℕ) (xs : List A) (i stop : ℕ)
    → i < stop
    → slice_loop fuel xs i stop 0 ≡ none
unfolding slice_loop
slice_loop-zero zero xs i stop h = refl
slice_loop-zero (suc fuel) xs i stop h =
    let t : ltb i stop ≡ true = ground arith in
    let again = slice_loop-zero fuel xs (i + 0) stop (omega arith) in
    elim (Option-cases (get_elem? xs i)) [
      | inl e ↦ rw (t, e) again
      | inr (x, e) ↦ rw (t, e, again) refl
    ]

-- `slice` with step 0 never ends where its start is before its end.
slice_step_zero :
    {A : Type 0} (fuel : ℕ) (xs : List A) (start stop : ℤ)
    → clamp (length xs) start < clamp (length xs) (end_or (length xs) stop)
    → slice fuel xs start stop 0 ≡ none
unfolding slice
slice_step_zero fuel xs start stop h =
    slice_loop-zero fuel xs (clamp (length xs) start) (clamp (length xs) (end_or (length xs) stop))
      h
