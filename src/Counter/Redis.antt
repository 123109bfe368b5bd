-- ===== src/Counter/Redis.antt =====
-- What RedisCounter.java counts.
use joshlong_examples.Common.{
  ◌≡◌, refl, sym, subst, ap, ◌∙◌, inl, inr, arith, Bool, true, false, Bool-cases, Option,
  Option-cases, none, some, [], ◌∷◌, if◌then◌else◌, Text, codes, text_eq, text_eq_iff, Table, find,
  put, find-put,
}
use joshlong_examples.Common.Int.{
  ℤ, pos, negsuc, ◌+ℤ◌, +ℤ_comm, +ℤ-zero, to_int, to_int-IsInt, to_int-+ℤ,
}
use joshlong_examples.Counter.Decimal.{
  show, parse_int, parse_unsigned, parse_magnitude, parse_digits,
}
use joshlong_examples.Counter.Stores.{
  Call, done, threw, state_of, modify_current, modify_key, redis_count, redis_counter,
}
use joshlong_examples.Counter.Readback.{parse_int-show}
use joshlong_examples.Counter.Tally.{
  increments, decrements, Calls, run, delta, tally, is_called, counted, counted_redis,
}

-- What Redis has under a name whose value is a whole number, or nothing.
abbrev pub stored : Option ℤ → Option Text
stored none = none
stored (some z) = some (show (to_int z))

modify_current_reads :
    (k : Text) (d n : ℤ) (current : Text) (s : Table Text)
    → parse_int current ≡ some n
    → state_of (modify_current k d current s) ≡ put k (show (to_int (n +ℤ d))) s
unfolding modify_current state_of
modify_current_reads k d n current s e =
    ap {B = Table Text}
      (λ o. state_of (elim o as (λ _. Call (Table Text)) [
        | none ↦ threw s
        | some n ↦ done (put k (show (to_int (n +ℤ d))) s)
      ]))
      e

find-modify_current :
    (k name : Text) (d : ℤ) (current : Text) (s : Table Text)
    → text_eq k name ≡ false
    → find name (state_of (modify_current k d current s)) ≡ find name s
unfolding modify_current state_of
find-modify_current k name d current s other = elim (Option-cases (parse_int current)) [
  | inl e ↦ ground arith
  | inr (n, e) ↦ ground (arith, find-put k name (show (to_int (n +ℤ d))) s)
]

pub parse_int-zero : parse_int (codes "0") ≡ some (pos 0)
unfolding parse_int parse_unsigned parse_magnitude parse_digits
parse_int-zero = refl

-- The value at the key after `modifyKey`, where the one before is a whole number or missing.
pub find-modify_key_self :
    (k : Text) (d : ℤ) (s : Table Text) (o : Option ℤ)
    → find k s ≡ stored o
    → find k (state_of (modify_key k d s))
      ≡ some (show (to_int (elim o [ none ↦ d | some v ↦ v +ℤ d ])))
unfolding modify_key
find-modify_key_self k d s none h =
    ap
      (λ o. find k (
        state_of (elim o as (λ _. Call (Table Text)) [
          | none ↦ modify_current k d (codes "0") (put k (codes "0") s)
          | some current ↦ modify_current k d current s
        ])))
      h
    ∙ ap (find k)
        (modify_current_reads k d (pos 0) (codes "0") (put k (codes "0") s) parse_int-zero)
    ∙ find-put k k (show (to_int (pos 0 +ℤ d))) (put k (codes "0") s)
    ∙ ap (λ b. if b then some (show (to_int (pos 0 +ℤ d))) else find k (put k (codes "0") s))
        ((text_eq_iff k k).1 refl)
    ∙ ap (λ z. some (show (to_int z))) (+ℤ_comm (pos 0) d ∙ +ℤ-zero d)
find-modify_key_self k d s (some v) h =
    ap
      (λ o. find k (
        state_of (elim o as (λ _. Call (Table Text)) [
          | none ↦ modify_current k d (codes "0") (put k (codes "0") s)
          | some current ↦ modify_current k d current s
        ])))
      h
    ∙ ap (find k) (
        modify_current_reads k d (to_int v) (show (to_int v)) s
          (parse_int-show (to_int v) (to_int-IsInt v)))
    ∙ find-put k k (show (to_int (to_int v +ℤ d))) s
    ∙ ap (λ b. if b then some (show (to_int (to_int v +ℤ d))) else find k s)
        ((text_eq_iff k k).1 refl)
    ∙ ap (λ z. some (show z)) (to_int-+ℤ v d)

find-modify_key_other :
    (k name : Text) (d : ℤ) (s : Table Text)
    → text_eq k name ≡ false
    → find name (state_of (modify_key k d s)) ≡ find name s
unfolding modify_key
find-modify_key_other k name d s other = elim (Option-cases (find k s)) [
  | inl e ↦
      ap
        (λ o. find name (
          state_of (elim o as (λ _. Call (Table Text)) [
            | none ↦ modify_current k d (codes "0") (put k (codes "0") s)
            | some current ↦ modify_current k d current s
          ])))
        e
      ∙ find-modify_current k name d (codes "0") (put k (codes "0") s) other
      ∙ find-put k name (codes "0") s
      ∙ ap (λ b. if b then some (codes "0") else find name s) other
  | inr (current, e) ↦
      ap
        (λ o. find name (
          state_of (elim o as (λ _. Call (Table Text)) [
            | none ↦ modify_current k d (codes "0") (put k (codes "0") s)
            | some current ↦ modify_current k d current s
          ])))
        e
      ∙ find-modify_current k name d current s other
]

find-modify_key :
    (k name : Text) (d : ℤ) (s : Table Text) (o : Option ℤ)
    → find name s ≡ stored o
    → find name (state_of (modify_key k d s))
      ≡ stored (if text_eq k name then some (elim o [ none ↦ d | some v ↦ v +ℤ d ]) else o)
find-modify_key k name d s o h = elim (Bool-cases (text_eq k name)) [
  | inl same ↦
      let e : k ≡ name = (text_eq_iff k name).0 same in
      subst
        (λ n.
          find n (state_of (modify_key k d s))
          ≡ stored (if text_eq k n then some (elim o [ none ↦ d | some v ↦ v +ℤ d ]) else o))
        e
        (find-modify_key_self k d s o (ap (λ n. find n s) e ∙ h)
          ∙ ap (λ b. stored (if b then some (elim o [ none ↦ d | some v ↦ v +ℤ d ]) else o))
              (sym ((text_eq_iff k k).1 refl)))
  | inr other ↦
      find-modify_key_other k name d s other
      ∙ h
      ∙ ap (λ b. stored (if b then some (elim o [ none ↦ d | some v ↦ v +ℤ d ]) else o)) (sym other)
]

find-run_redis :
    (name : Text) (ops : Calls) (s : Table Text) (o : Option ℤ)
    → find name s ≡ stored o
    → find name (run redis_counter ops s) ≡ stored (counted delta name ops o)
find-run_redis name [] s o h = h
find-run_redis name ((increments, k) ∷ ops) s o h =
    find-run_redis name ops (state_of (modify_key k (pos 1) s)) _
      (find-modify_key k name (pos 1) s o h)
find-run_redis name ((decrements, k) ∷ ops) s o h =
    find-run_redis name ops (state_of (modify_key k (negsuc 0) s)) _
      (find-modify_key k name (negsuc 0) s o h)

-- After any calls on an empty store, of any names and in any order, `getCount` of RedisCounter is the
-- increments of the name less its decrements, as an `int` wraps around; it throws if and
-- only if the name was never called.
pub redis_count_lem :
    (name : Text) (ops : Calls)
    → redis_counter.get_count (run redis_counter ops []) name
      ≡ (if is_called name ops then some (to_int (tally name ops)) else none)
unfolding redis_count find
redis_count_lem name ops =
    ap (λ o. elim o [ none ↦ none | some t ↦ parse_int t ])
      (find-run_redis name ops [] none refl ∙ ap stored (counted_redis name ops))
    ∙ either (is_called name ops)
  where
    either :
        (b : Bool)
        → elim (stored (if b then some (tally name ops) else none)) [
          | none ↦ none
          | some t ↦ parse_int t
        ]
          ≡ (if b then some (to_int (tally name ops)) else none)
    either true = parse_int-show (to_int (tally name ops)) (to_int-IsInt (tally name ops))
    either false = refl
