-- ===== src/Common/Search.antt =====
-- `indexOf` and `substring` on texts.
use Prim.Native.Nat.{ℕ, suc, ◌+◌}
use mathlib.Core.Path.{◌≡◌, refl}
use mathlib.Core.Bool.{Bool, true, false, not, ◌&&◌}
use mathlib.Core.List.{[], ◌∷◌, ◌++◌, append_assoc}
use mathlib.Core.Option.{Option, none, some}
use native.Mathlib.Omega.{arith}
use joshlong_examples.Common.Tests.{◌==◌, leb, if◌then◌else◌, is_some}
use joshlong_examples.Common.Lists.{length, take, drop, length-append, take-append, drop-append}
use joshlong_examples.Common.Texts.{Text}

unfoldable pub starts_with : Text → Text → Bool
starts_with s [] = true
starts_with [] (p ∷ ps) = false
starts_with (c ∷ s) (p ∷ ps) = c == p && starts_with s ps

-- `s.indexOf(p)`; `none` is -1.
unfoldable pub index_of : Text → Text → Option ℕ
index_of p [] = if starts_with [] p then some 0 else none
index_of p (c ∷ s) =
    let later = index_of p s in
    if starts_with (c ∷ s) p then some 0 else elim later [ none ↦ none | some i ↦ some (suc i) ]

-- `s.indexOf(p) != -1`
unfoldable pub contains : Text → Text → Bool
contains p s = is_some (index_of p s)

-- `s.substring(a, b)`, which takes its arguments in either order.
unfoldable pub substring : ℕ → ℕ → Text → Text
substring a b s = if leb a b then drop a (take b s) else drop b (take a s)

-- A text that begins with another starts with it.
pub starts_with-append : (p s : Text) → starts_with (p ++ s) p ≡ true
unfolding starts_with
starts_with-append [] s = refl
starts_with-append (c ∷ p) s = ground (arith, starts_with-append p s)

-- A two-letter pattern behind a text that does not contain its first letter is found there.
abbrev pub lacks : ℕ → Text → Bool
lacks c [] = true
lacks c (d ∷ s) = not (d == c) && lacks c s

pub index_of_pair :
    (a b : ℕ) (s rest : Text)
    → lacks a s ≡ true
    → index_of (a ∷ b ∷ []) (s ++ a ∷ b ∷ rest) ≡ some (length s)
unfolding index_of starts_with
index_of_pair a b [] rest h = ground arith
index_of_pair a b (c ∷ s) rest h = ground (arith, index_of_pair a b s rest)

pub take-drop_middle :
    (xs ys zs : Text) → substring (length xs) (length xs + length ys) (xs ++ (ys ++ zs)) ≡ ys
unfolding substring
take-drop_middle xs ys zs =
    let ordered : leb (length xs) (length xs + length ys) ≡ true = ground arith in
    let front : take (length xs + length ys) (xs ++ (ys ++ zs)) ≡ xs ++ ys =
      rw (← append_assoc xs ys zs, ← length-append xs ys) (take-append (xs ++ ys) zs) in
    rw (ordered, front) (drop-append xs ys)
