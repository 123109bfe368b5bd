-- ===== src/Common/Tables.antt =====
-- A map from texts as an association list, in which a write replaces the entry of its key.
use mathlib.Core.Path.{◌≡◌, refl}
use mathlib.Core.List.{List, [], ◌∷◌}
use mathlib.Core.Option.{Option, none, some}
use native.Mathlib.Omega.{arith}
use joshlong_examples.Common.Tests.{if◌then◌else◌}
use joshlong_examples.Common.Texts.{Text, text_eq, text_eq_iff}

abbrev pub Table {ℓ} : Type ℓ → Type ℓ
Table V = List (Text × V)

module _ {ℓ} {V : Type ℓ} where
  unfoldable pub find : Text → Table V → Option V
  find key [] = none
  find key ((k, v) ∷ t) = let rest = find key t in if text_eq k key then some v else rest

  unfoldable pub put : Text → V → Table V → Table V
  put key value [] = (key, value) ∷ []
  put key value ((k, v) ∷ t) =
      let rest = put key value t in if text_eq k key then (key, value) ∷ t else (k, v) ∷ rest

  pub find-put :
      (key other : Text) (value : V) (t : Table V)
      → find other (put key value t) ≡ (if text_eq key other then some value else find other t)
  unfolding find put
  find-put key other value [] = refl
  find-put key other value ((k, v) ∷ t) = ground (
    arith,
    find-put key other value t,
    text_eq_iff k key,
    text_eq_iff k other,
    text_eq_iff key other,
  )
