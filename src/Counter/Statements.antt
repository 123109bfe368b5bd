-- ===== src/Counter/Statements.antt =====
-- What the statements of MySqlCounter.java do to the rows of the table.
use joshlong_examples.Common.{
  ℕ, suc, ◌+◌, ◌≤◌, ◌<◌, length, ◌≡◌, refl, subst, ap, ◌∙◌, arith, false, Option, none, some, [],
  ◌∷◌, if◌then◌else◌, Text, text_eq, Table, find, put, find-put, by_cases,
}
use Prim.Native.Nat.{◌^◌}
use joshlong_examples.Common.Int.{ℤ, pos, negsuc, ◌+ℤ◌, IsInt, pos_part, neg_part}
use joshlong_examples.Counter.Stores.{
  Call, done, threw, Mysql, add_to, insert_or_add, state_of, upsert,
}
use joshlong_examples.Counter.Tally.{Op, increments, decrements, Calls, delta, counted, mysql_fresh}

-- No further from 0 than b.
abbrev pub Within : ℕ → Option ℤ → Type 0
Within b none = Unit
Within b (some z) = (pos_part z ≤ b) × (neg_part z ≤ b)

-- What a call makes of a value that may be missing.
abbrev pub changed : ℤ → ℤ → Option ℤ → ℤ
changed fresh added o = elim o [ none ↦ fresh | some v ↦ v +ℤ added ]

pub changed-Within :
    (b : ℕ) (op : Op) (o : Option ℤ)
    → Within b o
    → Within (suc b) (some (changed (mysql_fresh op) (delta op) o))
unfolding ◌+ℤ◌
changed-Within b increments none h = omega arith
changed-Within b decrements none h = omega arith
changed-Within b increments (some (pos n)) h = ground arith
changed-Within b increments (some (negsuc n)) h = ground arith
changed-Within b decrements (some (pos n)) h = ground arith
changed-Within b decrements (some (negsuc n)) h = ground arith

pub Within-IsInt : (b : ℕ) (z : ℤ) → Within b (some z) → b < 2 ^ 31 → IsInt z
Within-IsInt b (pos n) h k = omega (arith, h.0)
Within-IsInt b (negsuc n) h k = omega (arith, h.1)

pub Within-later : (b : ℕ) (o : Option ℤ) → Within b o → Within (suc b) o
Within-later b none h = tt
Within-later b (some z) h = (omega (arith, h.0), omega (arith, h.1))

pub counted-Within :
    (name : Text) (ops : Calls) (b : ℕ) (o : Option ℤ)
    → Within b o
    → Within (b + length ops) (counted mysql_fresh name ops o)
counted-Within name [] b o h = subst (λ n. Within n o) (omega arith) h
counted-Within name ((op, k) ∷ ops) b o h =
    subst (λ n. Within n (counted mysql_fresh name ((op, k) ∷ ops) o)) (omega arith)
      (counted-Within name ops (suc b) _ (
        by_cases (Within (suc b)) (text_eq k name) _ _ (λ _. changed-Within b op o h)
          (λ _. Within-later b o h)))

-- A statement that inserts, or whose sum is an `int`, ends.
pub upsert-done :
    (m : Mysql) (name key : Text) (fresh added : ℤ) (t : Table ℤ) (o : Option ℤ)
    → m.column name ≡ some key
    → find key t ≡ o
    → IsInt (changed fresh added o)
    → upsert m name fresh added t ≡ done (put key (changed fresh added o) t)
unfolding upsert insert_or_add add_to
upsert-done m name key fresh added t none c f h =
    ap
      (λ p. elim p as (λ _. Call (Table ℤ)) [
        | none ↦ threw t
        | some k ↦ insert_or_add m k fresh added t
      ])
      c
    ∙ ap
        (λ o. elim o as (λ _. Call (Table ℤ)) [
          | none ↦ done (put key fresh t)
          | some v ↦ add_to m key v added t
        ])
        f
upsert-done m name key fresh added t (some v) c f h =
    ap
      (λ p. elim p as (λ _. Call (Table ℤ)) [
        | none ↦ threw t
        | some k ↦ insert_or_add m k fresh added t
      ])
      c
    ∙ ap
        (λ o. elim o as (λ _. Call (Table ℤ)) [
          | none ↦ done (put key fresh t)
          | some w ↦ add_to m key w added t
        ])
        f
    ∙ ap (λ o. elim o as (λ _. Call (Table ℤ)) [ none ↦ threw t | some z ↦ done (put key z t) ])
        (m.sum_lem v added h)

-- A statement changes no other row, whether it fails or not.
pub find-upsert_other :
    (m : Mysql) (name key other : Text) (fresh added : ℤ) (t : Table ℤ)
    → m.column name ≡ some key
    → text_eq key other ≡ false
    → find other (state_of (upsert m name fresh added t)) ≡ find other t
unfolding upsert insert_or_add add_to state_of
find-upsert_other m name key other fresh added t c n =
    ap
      (λ p. find other (
        state_of (elim p as (λ _. Call (Table ℤ)) [
          | none ↦ threw t
          | some k ↦ insert_or_add m k fresh added t
        ])))
      c
    ∙ either (find key t)
  where
    summed :
        (o : Option ℤ)
        → find other (
            state_of
              (elim o as (λ _. Call (Table ℤ)) [ none ↦ threw t | some z ↦ done (put key z t) ]))
          ≡ find other t
    summed none = refl
    summed (some z) = find-put key other z t ∙ ap (λ b. if b then some z else find other t) n

    either :
        (o : Option ℤ)
        → find other (
            state_of (elim o as (λ _. Call (Table ℤ)) [
              | none ↦ done (put key fresh t)
              | some v ↦ add_to m key v added t
            ]))
          ≡ find other t
    either none = find-put key other fresh t ∙ ap (λ b. if b then some fresh else find other t) n
    either (some v) = summed (m.sum v added)
