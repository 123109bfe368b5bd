-- ===== src/Pollen/Distinct.antt =====
-- `distinctFilter` of jquery.hive.pollen.js against `filter` and `unique`.
use joshlong_examples.Common.{
  ℕ, ◌+◌, ◌≡◌, refl, ap, inl, inr, Bool, List, [], ◌∷◌, ◌++◌, Bool-cases, Text,
}
use joshlong_examples.Pollen.Arrays.{in_arr, unique_loop, unique}
use joshlong_examples.Pollen.Lists.{filter}
use joshlong_examples.Pollen.Query.{distinct_loop, distinct_filter}

distinct_loop-unique_loop :
    {A : Type 0} (mark : A → Text) (f : A → ℕ → Bool) (i : ℕ) (xs : List A) (seen : List Text)
    → distinct_loop mark f i xs seen ≡ unique_loop mark (filter f i xs) seen
unfolding distinct_loop unique_loop filter
distinct_loop-unique_loop mark f i [] seen = refl
distinct_loop-unique_loop mark f i (x ∷ xs) seen = elim (Bool-cases (f x i)) [
  | inr n ↦ rw n (distinct_loop-unique_loop mark f (i + 1) xs seen)
  | inl t ↦ elim (Bool-cases (in_arr seen (mark x))) [
    | inl k ↦ rw (t, k) (distinct_loop-unique_loop mark f (i + 1) xs seen)
    | inr n ↦
        rw (t, n) (ap (◌∷◌ x) (distinct_loop-unique_loop mark f (i + 1) xs (seen ++ mark x ∷ [])))
  ]
]

-- `distinctFilter` is `filter` and then `unique`, with the mark for the text by which elements are
-- told apart.
pub distinct_filter-unique :
    {A : Type 0} (mark : A → Text) (f : A → ℕ → Bool) (xs : List A)
    → distinct_filter mark f xs ≡ unique mark (filter f 0 xs)
unfolding distinct_filter unique
distinct_filter-unique mark f xs = distinct_loop-unique_loop mark f 0 xs []
