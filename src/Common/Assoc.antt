-- ===== src/Common/Assoc.antt =====
-- An object used as a dictionary with numbers for keys: an association list in which a write
-- replaces the entry of its key, and `delete` takes out every entry of a key.
use Prim.Native.Nat.{ℕ}
use mathlib.Core.Path.{◌≡◌, refl}
use mathlib.Core.List.{List, [], ◌∷◌}
use mathlib.Core.Option.{Option, none, some}
use native.Mathlib.Omega.{arith}
use joshlong_examples.Common.Tests.{◌==◌, if◌then◌else◌}

abbrev pub Dict {ℓ} : Type ℓ → Type ℓ
Dict V = List (ℕ × V)

module _ {ℓ} {V : Type ℓ} where
  -- `delete o[key]`
  unfoldable pub remove : ℕ → Dict V → Dict V
  remove key [] = []
  remove key (entry ∷ entries) =
      let rest = remove key entries in if entry.0 == key then rest else entry ∷ rest

  -- `o[key]`
  unfoldable pub lookup : ℕ → Dict V → Option V
  lookup key [] = none
  lookup key (entry ∷ entries) =
      let rest = lookup key entries in if entry.0 == key then some entry.1 else rest

  -- `o[key] = value`
  unfoldable pub insert : ℕ → V → Dict V → Dict V
  insert key value [] = (key, value) ∷ []
  insert key value (entry ∷ entries) =
      let rest = insert key value entries in
      if entry.0 == key then (key, value) ∷ entries else entry ∷ rest

  pub lookup-nil : (key : ℕ) → lookup key [] ≡ none
  unfolding lookup
  lookup-nil key = refl

  pub lookup-remove :
      (key other : ℕ) (o : Dict V)
      → lookup other (remove key o) ≡ (if key == other then none else lookup other o)
  unfolding lookup remove
  lookup-remove key other [] = ground arith
  lookup-remove key other (entry ∷ entries) = ground (arith, lookup-remove key other entries)

  pub lookup-insert :
      (key other : ℕ) (value : V) (o : Dict V)
      → lookup other (insert key value o) ≡ (if key == other then some value else lookup other o)
  unfolding lookup insert
  lookup-insert key other value [] = refl
  lookup-insert key other value (entry ∷ entries) =
      ground (arith, lookup-insert key other value entries)
