-- ===== src/Common.antt =====
-- Names, tests and lemmas that the models of the scripts share.
mod Tests
mod Lists
mod Assoc
mod Texts
mod Jq
mod Search
pub mod Int
mod Tables
pub use Tests.*
pub use Lists.*
unfoldable pub use Assoc.*
unfoldable pub use Texts.*
pub use Jq.*
unfoldable pub use Search.*
unfoldable pub use Tables.*
pub use Prim.Native.Nat.{ℕ, zero, suc, ◌+◌, ◌-◌, ◌*◌, ◌≤◌, ◌<◌}
pub use mathlib.Core.Path.{◌≡◌, refl, subst, sym, ap, ◌∙◌}
pub use mathlib.Core.Logic.{◌≢◌, ◌↔◌, ◌⊎◌, inl, inr}
pub use mathlib.Core.Bool.{Bool, true, false, not, ◌&&◌, ◌||◌}
pub use mathlib.Core.Option.{Option, none, some}
pub use mathlib.Core.List.{List, [], ◌∷◌, ◌++◌, map, append-nil, append_assoc}
pub use native.Mathlib.Omega.{arith}
