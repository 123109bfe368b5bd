-- ===== src/Counter/Decimal.antt =====
-- Java's `n + ""` and `Integer.parseInt` on an `int`, which RedisCounter.java stores as a text.
use joshlong_examples.Common.{
  ℕ, zero, suc, ◌+◌, ◌-◌, ◌*◌, true, false, ◌&&◌, Option, none, some, [], ◌∷◌, ◌++◌, ◌==◌, ltb, leb,
  if◌then◌else◌, Text,
}
use Prim.Native.Nat.{◌/◌, ◌%◌, ◌^◌}
use joshlong_examples.Common.Int.{ℤ, pos, negsuc}

-- The decimal digits of a number, with fuel for as many divisions by ten.
unfoldable pub show_digits : ℕ → ℕ → Text
show_digits zero n = []
show_digits (suc fuel) n = elim (ltb n 10) [
  | true ↦ (48 + n) ∷ []
  | false ↦ show_digits fuel (n / 10) ++ (48 + n % 10) ∷ []
]

-- `n + ""`
unfoldable pub show : ℤ → Text
unfolding show_digits
show (pos n) = show_digits (suc n) n
show (negsuc n) = b'-' ∷ show_digits (suc (suc n)) (suc n)

-- The value of digits behind what was read so far; `none` at what is no digit.
unfoldable pub parse_digits : ℕ → Text → Option ℕ
parse_digits acc [] = some acc
parse_digits acc (c ∷ cs) =
    let rest = parse_digits (acc * 10 + (c - 48)) cs in if leb 48 c && ltb c 58 then rest else none

-- At least one digit.
unfoldable pub parse_magnitude : Text → Option ℕ
unfolding parse_digits
parse_magnitude [] = none
parse_magnitude (c ∷ cs) = parse_digits 0 (c ∷ cs)

-- -n as a whole number.
unfoldable pub negated : ℕ → ℤ
negated zero = pos 0
negated (suc n) = negsuc n

unfoldable pub parse_unsigned : Text → Option ℤ
unfolding parse_magnitude
parse_unsigned s = elim (parse_magnitude s) [
  | none ↦ none
  | some n ↦ if ltb n (2 ^ 31) then some (pos n) else none
]

unfoldable pub parse_signed : Text → Option ℤ
unfolding parse_magnitude negated
parse_signed s = elim (parse_magnitude s) [
  | none ↦ none
  | some n ↦ if leb n (2 ^ 31) then some (negated n) else none
]

-- `Integer.parseInt`; `none` is a NumberFormatException.
unfoldable pub parse_int : Text → Option ℤ
unfolding parse_unsigned parse_signed
parse_int [] = none
parse_int (c ∷ cs) =
    if c == b'-'
    then parse_signed cs
    else if c == b'+'
    then parse_unsigned cs
    else parse_unsigned (c ∷ cs)
