-- ===== src/Common/Jq.antt =====
-- The functions of jQuery that the scripts call. They are parameters of the models: a record
-- of the functions, with what jQuery documents of each.
use Prim.Native.Nat.{ℕ}
use mathlib.Core.Bool.{Bool, false, ◌||◌}
use joshlong_examples.Common.Tests.{◌==◌}
use mathlib.Core.Path.{◌≡◌, refl}
use mathlib.Core.List.{List, [], ◌∷◌, ◌++◌}
use mathlib.Core.Option.{Option, none, some}

-- The results that are not null, in order.
abbrev pub filter_map : {A B : Type 0} → (A → Option B) → List A → List B
filter_map f [] = []
filter_map f (x ∷ xs) = let rest = filter_map f xs in elim (f x) [ none ↦ rest | some y ↦ y ∷ rest ]

-- One call of a function for each element, in order, over what the calls change.
abbrev pub fold : {A S : Type 0} → (A → S → S) → List A → S → S
fold f [] s = s
fold f (x ∷ xs) s = fold f xs (f x s)

abbrev pub member : ℕ → List ℕ → Bool
member x [] = false
member x (y ∷ ys) = y == x || member x ys

pub record JQuery : Type 1 where
  -- `jQuery.map(array, callback)`: what the callback returns for each element, less the nulls.
  pub map : (A B : Type 0) → List A → (A → Option B) → List B
  pub map_lem : (A B : Type 0) (xs : List A) (f : A → Option B) → map A B xs f ≡ filter_map f xs
  -- `jQuery.merge(first, second)` appends the second array to the first.
  pub merge : (A : Type 0) → List A → List A → List A
  pub merge_lem : (A : Type 0) (xs ys : List A) → merge A xs ys ≡ xs ++ ys
  -- `jQuery.each(array, callback)`, where no call returns false.
  pub each : (A S : Type 0) → (A → S → S) → List A → S → S
  pub each_lem :
      (A S : Type 0) (f : A → S → S) (xs : List A) (s : S) → each A S f xs s ≡ fold f xs s
  -- Whether `jQuery.inArray(value, array)` is not -1.
  pub in_array : ℕ → List ℕ → Bool
  pub in_array_lem : (x : ℕ) (xs : List ℕ) → in_array x xs ≡ member x xs
  -- `jQuery.extend(target, source)` at one property: the value of the target, and that of the
  -- source where it is defined.
  pub extend : (A : Type 0) → A → Option A → A
  pub extend_absent : (A : Type 0) (a : A) → extend A a none ≡ a
  pub extend_present : (A : Type 0) (a b : A) → extend A a (some b) ≡ b

-- A jQuery that does what is documented.
abbrev pub plain_jquery : JQuery
plain_jquery = record {
  map = λ A B xs f. filter_map f xs;
  map_lem = λ A B xs f. refl;
  merge = λ A xs ys. xs ++ ys;
  merge_lem = λ A xs ys. refl;
  each = λ A S f xs s. fold f xs s;
  each_lem = λ A S f xs s. refl;
  in_array = member;
  in_array_lem = λ x xs. refl;
  extend = λ A a o. elim o [ none ↦ a | some b ↦ b ];
  extend_absent = λ A a. refl;
  extend_present = λ A a b. refl;
}
