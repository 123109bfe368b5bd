-- ===== src/Common/Int.antt =====
-- Whole numbers over the native numbers, and Java's `int`, which wraps around.
use Prim.Native.Nat.{ℕ, suc, ◌+◌, ◌-◌, ◌*◌, ◌%◌, ◌^◌, ◌<◌}
use mathlib.Core.Path.{◌≡◌}
use mathlib.Core.Logic.{◌≢◌}
use native.Mathlib.Omega.{arith}
use joshlong_examples.Common.Tests.{leb, if◌then◌else◌}

-- `negsuc n` is -(n + 1).
pub data ℤ : Type 0 where
  pos : ℕ → ℤ
  negsuc : ℕ → ℤ

abbrev pub pos_part : ℤ → ℕ
pos_part (pos n) = n
pos_part (negsuc n) = 0

abbrev pub neg_part : ℤ → ℕ
neg_part (pos n) = 0
neg_part (negsuc n) = suc n

-- a - b, as a whole number.
abbrev pub sub_ℕ : ℕ → ℕ → ℤ
sub_ℕ a b = if leb b a then pos (a - b) else negsuc (b - a - 1)

infixl 65 ◌+ℤ◌
unfoldable pub ◌+ℤ◌ : ℤ → ℤ → ℤ
a +ℤ b = sub_ℕ (pos_part a + pos_part b) (neg_part a + neg_part b)

pub +ℤ_assoc : (a b c : ℤ) → a +ℤ b +ℤ c ≡ a +ℤ (b +ℤ c)
unfolding ◌+ℤ◌
+ℤ_assoc a b c = ground arith

pub +ℤ_comm : (a b : ℤ) → a +ℤ b ≡ b +ℤ a
unfolding ◌+ℤ◌
+ℤ_comm a b = ground arith

pub +ℤ-zero : (a : ℤ) → a +ℤ pos 0 ≡ a
unfolding ◌+ℤ◌
+ℤ-zero a = ground arith

-- What fits into an `int`.
abbrev pub IsInt : ℤ → Type 0
IsInt (pos n) = n < 2 ^ 31
IsInt (negsuc n) = n < 2 ^ 31

-- The lower 32 bits of a whole number, plus 2 ^ 31 in the same bits.
abbrev pub shifted : ℤ → ℕ
shifted (pos n) = (n + 2 ^ 31) % 2 ^ 32
shifted (negsuc n) = (2 ^ 31 + (2 ^ 32 - 1 - n % 2 ^ 32)) % 2 ^ 32

-- A whole number as an `int`.
unfoldable pub to_int : ℤ → ℤ
to_int z = sub_ℕ (shifted z) (2 ^ 31)

pub to_int-IsInt : (z : ℤ) → IsInt (to_int z)
unfolding to_int
to_int-IsInt (pos n) = ground arith
to_int-IsInt (negsuc n) = ground arith

pub to_int_fits : (z : ℤ) → IsInt z → to_int z ≡ z
unfolding to_int
to_int_fits (pos n) h = ground arith
to_int_fits (negsuc n) h = ground arith

pub +ℤ_parts :
    (a b : ℤ)
    → pos_part (a +ℤ b) + neg_part a + neg_part b ≡ neg_part (a +ℤ b) + pos_part a + pos_part b
unfolding ◌+ℤ◌
+ℤ_parts a b = ground arith

-- The lower bits in one form for both signs: -1 is 2 ^ 32 - 1 there.
bits : ℤ → ℕ
bits z = (pos_part z + (2 ^ 32 - 1) * neg_part z) % 2 ^ 32

to_int-bits : (a b : ℤ) → bits a ≡ bits b → to_int a ≡ to_int b
unfolding to_int bits
to_int-bits (pos a) (pos b) h = let e : shifted (pos a) ≡ shifted (pos b) = omega arith in rw e
to_int-bits (pos a) (negsuc b) h =
    let e : shifted (pos a) ≡ shifted (negsuc b) = omega arith in rw e
to_int-bits (negsuc a) (pos b) h =
    let e : shifted (negsuc a) ≡ shifted (pos b) = omega arith in rw e
to_int-bits (negsuc a) (negsuc b) h =
    let e : shifted (negsuc a) ≡ shifted (negsuc b) = omega arith in rw e

bits-to_int : (a : ℤ) → bits (to_int a) ≡ bits a
unfolding to_int bits
bits-to_int (pos a) = ground arith
bits-to_int (negsuc a) = ground arith

bits-+ℤ : (a a' b : ℤ) → bits a ≡ bits a' → bits (a +ℤ b) ≡ bits (a' +ℤ b)
unfolding bits
bits-+ℤ a a' b h = omega (arith, +ℤ_parts a b, +ℤ_parts a' b)

-- Wrapping around early changes nothing.
pub to_int-+ℤ : (a b : ℤ) → to_int (to_int a +ℤ b) ≡ to_int (a +ℤ b)
to_int-+ℤ a b = to_int-bits (to_int a +ℤ b) (a +ℤ b) (bits-+ℤ (to_int a) a b (bits-to_int a))

-- The next `int` is another one.
pub to_int_ne : (a : ℤ) → to_int (a +ℤ pos 1) ≢ to_int a
unfolding to_int ◌+ℤ◌
to_int_ne (pos a) h = ground arith
to_int_ne (negsuc a) h = ground arith
