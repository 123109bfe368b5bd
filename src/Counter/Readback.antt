-- ===== src/Counter/Readback.antt =====
-- An `int` that is written as a text is read back from it.
use joshlong_examples.Common.{
  ℕ, zero, suc, ◌+◌, ◌-◌, ◌*◌, ◌<◌, ◌≤◌, ◌≡◌, refl, sym, subst, ap, ◌∙◌, inl, inr, arith, true,
  false, Bool-cases, some, [], ◌∷◌, ◌++◌, ltb, Text,
}
use Prim.Native.Nat.{◌/◌, ◌%◌, ◌^◌}
use joshlong_examples.Common.Int.{ℤ, pos, negsuc, IsInt}
use joshlong_examples.Counter.Decimal.{
  show_digits, show, parse_digits, parse_magnitude, negated, parse_unsigned, parse_signed,
  parse_int,
}

-- One more digit at the end.
parse_digits-snoc :
    (acc : ℕ) (t : Text) (n d : ℕ)
    → parse_digits acc t ≡ some n
    → d < 10
    → parse_digits acc (t ++ (48 + d) ∷ []) ≡ some (n * 10 + d)
unfolding parse_digits
parse_digits-snoc acc [] n d h small = ground arith
parse_digits-snoc acc (c ∷ cs) n d h small =
    ground (arith, parse_digits-snoc (acc * 10 + (c - 48)) cs n d)

show_digits_one : (fuel n : ℕ) → ltb n 10 ≡ true → show_digits (suc fuel) n ≡ (48 + n) ∷ []
unfolding show_digits
show_digits_one fuel n h = ground arith

show_digits_more :
    (fuel n : ℕ)
    → ltb n 10 ≡ false
    → show_digits (suc fuel) n ≡ show_digits fuel (n / 10) ++ (48 + n % 10) ∷ []
unfolding show_digits
show_digits_more fuel n h = ground arith

parse_digits-show_digits : (fuel n : ℕ) → n < fuel → parse_digits 0 (show_digits fuel n) ≡ some n
unfolding parse_digits
parse_digits-show_digits zero n h = absurd (omega arith)
parse_digits-show_digits (suc fuel) n h = elim (Bool-cases (ltb n 10)) [
  | inl small ↦
      ap (parse_digits 0) (show_digits_one fuel n small)
      ∙ parse_digits-snoc 0 [] 0 n refl (ground arith)
      ∙ ap some (omega arith)
  | inr large ↦
      ap (parse_digits 0) (show_digits_more fuel n large)
      ∙ parse_digits-snoc 0 (show_digits fuel (n / 10)) (n / 10) (n % 10)
          (parse_digits-show_digits fuel (n / 10) (ground arith)) (omega arith)
      ∙ ap some (omega arith)
]

-- A text of digits begins with one, and so neither with a sign nor at its end.
abbrev BeginsDigit : Text → Type 0
BeginsDigit [] = ⊥
BeginsDigit (c ∷ cs) = (48 ≤ c) × (c < 58)

BeginsDigit-append : (s t : Text) → BeginsDigit s → BeginsDigit (s ++ t)
BeginsDigit-append [] t h = absurd h
BeginsDigit-append (c ∷ s) t h = h

BeginsDigit-show_digits : (fuel n : ℕ) → n < fuel → BeginsDigit (show_digits fuel n)
BeginsDigit-show_digits zero n h = absurd (omega arith)
BeginsDigit-show_digits (suc fuel) n h = elim (Bool-cases (ltb n 10)) [
  | inl small ↦ subst BeginsDigit (sym (show_digits_one fuel n small)) (ground arith)
  | inr large ↦ subst BeginsDigit (sym (show_digits_more fuel n large)) (
      BeginsDigit-append (show_digits fuel (n / 10)) ((48 + n % 10) ∷ [])
        (BeginsDigit-show_digits fuel (n / 10) (ground arith)))
]

parse_magnitude_digits : (t : Text) → BeginsDigit t → parse_magnitude t ≡ parse_digits 0 t
unfolding parse_magnitude
parse_magnitude_digits [] h = absurd h
parse_magnitude_digits (c ∷ cs) h = refl

parse_int_digits : (t : Text) → BeginsDigit t → parse_int t ≡ parse_unsigned t
unfolding parse_int
parse_int_digits [] h = absurd h
parse_int_digits (c ∷ cs) h = ground arith

parse_unsigned_fits :
    (t : Text) (n : ℕ) → parse_magnitude t ≡ some n → n < 2 ^ 31 → parse_unsigned t ≡ some (pos n)
unfolding parse_unsigned
parse_unsigned_fits t n e h = ground arith

parse_signed_fits :
    (t : Text) (n : ℕ)
    → parse_magnitude t ≡ some (suc n)
    → n < 2 ^ 31
    → parse_int (b'-' ∷ t) ≡ some (negsuc n)
unfolding parse_int parse_signed negated
parse_signed_fits t n e h = ground arith

parse_magnitude-show_digits : (n : ℕ) → parse_magnitude (show_digits (suc n) n) ≡ some n
parse_magnitude-show_digits n =
    parse_magnitude_digits (show_digits (suc n) n) (BeginsDigit-show_digits (suc n) n (omega arith))
    ∙ parse_digits-show_digits (suc n) n (omega arith)

-- `Integer.parseInt(n + "")` is n, for every `int` n.
pub parse_int-show : (z : ℤ) → IsInt z → parse_int (show z) ≡ some z
unfolding show
parse_int-show (pos n) h =
    parse_int_digits (show_digits (suc n) n) (BeginsDigit-show_digits (suc n) n (omega arith))
    ∙ parse_unsigned_fits (show_digits (suc n) n) n (parse_magnitude-show_digits n) h
parse_int-show (negsuc n) h =
    parse_signed_fits (show_digits (suc (suc n)) (suc n)) n (parse_magnitude-show_digits (suc n)) h
