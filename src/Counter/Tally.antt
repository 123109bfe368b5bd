-- ===== src/Counter/Tally.antt =====
-- The calls of a counter, and how often each name was called.
use joshlong_examples.Common.{
  ◌≡◌, refl, sym, ap, ◌∙◌, arith, Bool, true, false, Option, none, some, List, [], ◌∷◌,
  if◌then◌else◌, Text, text_eq,
}
use joshlong_examples.Common.Int.{ℤ, pos, negsuc, ◌+ℤ◌, +ℤ_assoc, +ℤ-zero}
use joshlong_examples.Counter.Stores.{Call, state_of, Counter}

pub data Op : Type 0 where
  increments decrements : Op

-- Calls of `increment` and `decrement`, each with the name that it is given.
abbrev pub Calls : Type 0
Calls = List (Op × Text)

abbrev pub call : (c : Counter) → Op → Text → c.State → Call c.State
call c increments name s = c.increment name s
call c decrements name s = c.decrement name s

abbrev pub run : (c : Counter) → Calls → c.State → c.State
run c [] s = s
run c ((op, name) ∷ ops) s = run c ops (state_of (call c op name s))

abbrev pub delta : Op → ℤ
delta increments = pos 1
delta decrements = negsuc 0

-- The increments of a name less its decrements.
abbrev pub tally : Text → Calls → ℤ
tally name [] = pos 0
tally name ((op, k) ∷ ops) = if text_eq k name then delta op +ℤ tally name ops else tally name ops

abbrev pub is_called : Text → Calls → Bool
is_called name [] = false
is_called name ((op, k) ∷ ops) = if text_eq k name then true else is_called name ops

abbrev pub is_down : Op → Bool
is_down increments = false
is_down decrements = true

-- Whether the first call with a name is a decrement.
abbrev pub starts_down : Text → Calls → Bool
starts_down name [] = false
starts_down name ((op, k) ∷ ops) = if text_eq k name then is_down op else starts_down name ops

-- The value under a name after some calls, where the first of them gives it what `fresh` says.
abbrev pub counted : (Op → ℤ) → Text → Calls → Option ℤ → Option ℤ
counted fresh name [] o = o
counted fresh name ((op, k) ∷ ops) o =
    counted fresh name ops
      (if text_eq k name then some (elim o [ none ↦ fresh op | some v ↦ v +ℤ delta op ]) else o)

counted-some :
    (fresh : Op → ℤ) (name : Text) (ops : Calls) (v : ℤ)
    → counted fresh name ops (some v) ≡ some (v +ℤ tally name ops)
counted-some fresh name [] v = ap some (sym (+ℤ-zero v))
counted-some fresh name ((op, k) ∷ ops) v =
    either (text_eq k name)
      (counted-some fresh name ops (v +ℤ delta op)
        ∙ ap some (+ℤ_assoc v (delta op) (tally name ops)))
      (counted-some fresh name ops v)
  where
    either :
        (b : Bool)
        → counted fresh name ops (some (v +ℤ delta op)) ≡ some (v +ℤ (delta op +ℤ tally name ops))
        → counted fresh name ops (some v) ≡ some (v +ℤ tally name ops)
        → counted fresh name ops (if b then some (v +ℤ delta op) else some v)
          ≡ some (v +ℤ (if b then delta op +ℤ tally name ops else tally name ops))
    either true h k = h
    either false h k = k

-- What MySQL gives a new name, which for a decrement is one too much.
abbrev pub mysql_fresh : Op → ℤ
mysql_fresh increments = pos 1
mysql_fresh decrements = pos 0

pub counted_redis :
    (name : Text) (ops : Calls)
    → counted delta name ops none ≡ (if is_called name ops then some (tally name ops) else none)
counted_redis name [] = refl
counted_redis name ((op, k) ∷ ops) = either (text_eq k name) (counted_redis name ops)
  where
    either :
        (b : Bool)
        → counted delta name ops none ≡ (if is_called name ops then some (tally name ops) else none)
        → counted delta name ops (if b then some (delta op) else none) ≡ (
            if (if b then true else is_called name ops)
            then some (if b then delta op +ℤ tally name ops else tally name ops)
            else none)
    either true h = counted-some delta name ops (delta op)
    either false h = h

abbrev pub one_if : Bool → ℤ
one_if true = pos 1
one_if false = pos 0

mysql_fresh-+ℤ : (op : Op) (t : ℤ) → mysql_fresh op +ℤ t ≡ delta op +ℤ t +ℤ one_if (is_down op)
unfolding ◌+ℤ◌
mysql_fresh-+ℤ increments t = ground arith
mysql_fresh-+ℤ decrements t = ground arith

pub counted_mysql :
    (name : Text) (ops : Calls)
    → counted mysql_fresh name ops none ≡ (
        if is_called name ops then some (tally name ops +ℤ one_if (starts_down name ops)) else none)
counted_mysql name [] = refl
counted_mysql name ((op, k) ∷ ops) = either (text_eq k name) (counted_mysql name ops)
  where
    either :
        (b : Bool)
        → counted mysql_fresh name ops none ≡ (
            if is_called name ops
            then some (tally name ops +ℤ one_if (starts_down name ops))
            else none)
        → counted mysql_fresh name ops (if b then some (mysql_fresh op) else none) ≡ (
            if (if b then true else is_called name ops)
            then some (
                (if b then delta op +ℤ tally name ops else tally name ops)
                +ℤ one_if (if b then is_down op else starts_down name ops))
            else none)
    either true h =
        counted-some mysql_fresh name ops (mysql_fresh op)
        ∙ ap some (mysql_fresh-+ℤ op (tally name ops))
    either false h = h
