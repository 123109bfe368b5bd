-- ===== src/Counter/Mysql.antt =====
-- What MySqlCounter.java counts, and where the two implementations differ.
use mathlib.Core.Option.{some-injective}
use joshlong_examples.Common.{
  ℕ, suc, ◌+◌, ◌≤◌, ◌<◌, length, ◌↔◌, ◌≡◌, refl, sym, subst, ap, ◌∙◌, inl, inr, arith, Bool, true,
  false, Bool-cases, Option, none, some, [], ◌∷◌, if◌then◌else◌, Text, text_eq, text_eq_iff, Table,
  find, find-put, by_cases,
}
use Prim.Native.Nat.{◌^◌}
use joshlong_examples.Common.Int.{
  ℤ, pos, negsuc, ◌+ℤ◌, +ℤ-zero, to_int, to_int_ne, to_int_fits, IsInt,
}
use joshlong_examples.Counter.Stores.{Mysql, state_of, redis_counter, upsert, fetch, mysql_counter}
use joshlong_examples.Counter.Tally.{
  Op, increments, decrements, Calls, run, delta, tally, is_called, starts_down, one_if, counted,
  mysql_fresh, counted_mysql,
}
use joshlong_examples.Counter.Redis.{redis_count_lem}
use joshlong_examples.Counter.Statements.{
  Within, changed, changed-Within, Within-IsInt, Within-later, counted-Within, upsert-done,
  find-upsert_other,
}

-- The calls, with the names as the index tells them apart.
abbrev pub keyed : Mysql → Calls → Calls
keyed m [] = []
keyed m ((op, k) ∷ ops) = (op, m.key_of k) ∷ keyed m ops

-- The column keeps every name whole.
abbrev pub AllShort : Calls → Type 0
AllShort [] = Unit
AllShort ((op, k) ∷ ops) = (length k ≤ 255) × AllShort ops

row_after :
    (m : Mysql) (key : Text) (op : Op) (k : Text) (t : Table ℤ) (b : ℕ)
    → length k ≤ 255
    → Within b (find key t)
    → suc b < 2 ^ 31
    → find key (state_of (upsert m k (mysql_fresh op) (delta op) t)) ≡ (
        if text_eq (m.key_of k) key
        then some (changed (mysql_fresh op) (delta op) (find key t))
        else find key t)
unfolding state_of
row_after m key op k t b short w small = elim (Bool-cases (text_eq (m.key_of k) key)) [
  | inl same ↦
      let same_key : m.key_of k ≡ key = (text_eq_iff (m.key_of k) key).0 same in
      let z = changed (mysql_fresh op) (delta op) (find key t) in
      let fits : IsInt z = Within-IsInt (suc b) z (changed-Within b op (find key t) w) small in
      let ran =
        upsert-done m k key (mysql_fresh op) (delta op) t (find key t)
          (m.column_lem k short ∙ ap some same_key) refl fits in
      ap (λ c. find key (state_of c)) ran
      ∙ find-put key key z t
      ∙ ap (λ b. if b then some z else find key t) ((text_eq_iff key key).1 refl)
      ∙ ap (λ b. if b then some z else find key t) (sym same)
  | inr other ↦
      find-upsert_other m k (m.key_of k) key (mysql_fresh op) (delta op) t (m.column_lem k short)
        other
      ∙ ap (λ b. if b then some (changed (mysql_fresh op) (delta op) (find key t)) else find key t)
          (sym other)
]

step-Within :
    (m : Mysql) (key : Text) (op : Op) (k : Text) (b : ℕ) (o : Option ℤ)
    → Within b o
    → Within
        (suc b)
        (if text_eq (m.key_of k) key then some (changed (mysql_fresh op) (delta op) o) else o)
step-Within m key op k b o h =
    by_cases (Within (suc b)) (text_eq (m.key_of k) key) _ _ (λ _. changed-Within b op o h)
      (λ _. Within-later b o h)

find-run_mysql :
    (m : Mysql) (key : Text) (ops : Calls) (t : Table ℤ) (b : ℕ)
    → AllShort ops
    → Within b (find key t)
    → b + length ops < 2 ^ 31
    → find key (run (mysql_counter m) ops t) ≡ counted mysql_fresh key (keyed m ops) (find key t)
find-run_mysql m key [] t b short w small = refl
find-run_mysql m key ((increments, k) ∷ ops) t b (short, rest) w small =
    let row = row_after m key increments k t b short w (omega arith) in
    find-run_mysql m key ops (state_of (upsert m k (pos 1) (pos 1) t)) (suc b) rest
      (subst (Within (suc b)) (sym row) (step-Within m key increments k b (find key t) w))
      (omega arith)
    ∙ ap (counted mysql_fresh key (keyed m ops)) row
find-run_mysql m key ((decrements, k) ∷ ops) t b (short, rest) w small =
    let row = row_after m key decrements k t b short w (omega arith) in
    find-run_mysql m key ops (state_of (upsert m k (pos 0) (negsuc 0) t)) (suc b) rest
      (subst (Within (suc b)) (sym row) (step-Within m key decrements k b (find key t) w))
      (omega arith)
    ∙ ap (counted mysql_fresh key (keyed m ops)) row

length-keyed : (m : Mysql) (ops : Calls) → length (keyed m ops) ≡ length ops
length-keyed m [] = refl
length-keyed m ((op, k) ∷ ops) = ap suc (length-keyed m ops)

-- The count of a name, as the index tells names apart.
abbrev pub mysql_tally : Mysql → Text → Calls → ℤ
mysql_tally m name ops =
    tally (m.key_of name) (keyed m ops) +ℤ one_if (starts_down (m.key_of name) (keyed m ops))

-- Of fewer than 2 ^ 31 calls on an empty table, with names of at most 255 characters: `getCount` of
-- MySqlCounter is the increments less the decrements of the names that the collation of the table takes for
-- the same, where the first call with one of them is an increment; where it is a decrement, one more
-- than that; it throws if and only if none of them was ever called.
pub mysql_count_lem :
    (m : Mysql) (name : Text) (ops : Calls)
    → AllShort ops
    → length ops < 2 ^ 31
    → (mysql_counter m).get_count (run (mysql_counter m) ops []) name
      ≡ (if is_called (m.key_of name) (keyed m ops) then some (mysql_tally m name ops) else none)
unfolding fetch find
mysql_count_lem m name ops short small =
    ap (λ o. elim o as (λ _. Option ℤ) [ none ↦ none | some v ↦ m.get_int v ])
      (find-run_mysql m key ops [] 0 short tt (omega arith) ∙ counted_mysql key (keyed m ops))
    ∙ either (is_called key (keyed m ops)) (
        subst (Within (0 + length (keyed m ops))) (counted_mysql key (keyed m ops))
          (counted-Within key (keyed m ops) 0 none tt))
  where
    key : Text
    key = m.key_of name

    either :
        (b : Bool)
        → Within (0 + length (keyed m ops)) (if b then some (mysql_tally m name ops) else none)
        → elim (if b then some (mysql_tally m name ops) else none) as (λ _. Option ℤ) [
          | none ↦ none
          | some v ↦ m.get_int v
        ]
          ≡ (if b then some (mysql_tally m name ops) else none)
    either true w =
        m.get_int_lem (mysql_tally m name ops)
          (Within-IsInt (0 + length (keyed m ops)) _ w (omega (arith, length-keyed m ops)))
    either false w = refl

-- The index takes no other name of the calls for this one.
abbrev pub AllApart : Mysql → Text → Calls → Type 0
AllApart m name [] = Unit
AllApart m name ((op, k) ∷ ops) = (m.key_of k ≡ m.key_of name → k ≡ name) × AllApart m name ops

same_test :
    (m : Mysql) (name k : Text)
    → (m.key_of k ≡ m.key_of name → k ≡ name)
    → text_eq (m.key_of k) (m.key_of name) ≡ text_eq k name
same_test m name k apart = elim (Bool-cases (text_eq k name)) [
  | inl e ↦ (text_eq_iff _ _).1 (ap m.key_of ((text_eq_iff k name).0 e)) ∙ sym e
  | inr n ↦ elim (Bool-cases (text_eq (m.key_of k) (m.key_of name))) [
    | inl e ↦ let same = (text_eq_iff k name).1 (apart ((text_eq_iff _ _).0 e)) in cc
    | inr e ↦ e ∙ sym n
  ]
]

-- Then the calls count for it as they do by the text of the names.
abbrev Counts : Mysql → Text → Calls → Type 0
Counts m name ops =
    (is_called (m.key_of name) (keyed m ops) ≡ is_called name ops)
    × (starts_down (m.key_of name) (keyed m ops) ≡ starts_down name ops)
    × (tally (m.key_of name) (keyed m ops) ≡ tally name ops)

keyed-Counts : (m : Mysql) (name : Text) (ops : Calls) → AllApart m name ops → Counts m name ops
keyed-Counts m name [] apart = (refl, refl, refl)
keyed-Counts m name ((op, k) ∷ ops) (here, apart) =
    let same = same_test m name k here in
    let (called, down, count) = keyed-Counts m name ops apart in
    rw (same, called, down, count) (refl, refl, refl)

-- Of fewer than 2 ^ 31 calls on empty stores, with names of at most 255 characters, and for a name that was
-- called, and that the collation of the table takes for no other of them: the two implementations of the
-- interface give the same count if and only if the first call with the name was an increment.
pub mysql_count-eq-redis_count_iff :
    (m : Mysql) (name : Text) (ops : Calls)
    → AllShort ops
    → length ops < 2 ^ 31
    → AllApart m name ops
    → is_called name ops ≡ true
    → ((mysql_counter m).get_count (run (mysql_counter m) ops []) name
        ≡ redis_counter.get_count (run redis_counter ops []) name)
      ↔ (starts_down name ops ≡ false)
mysql_count-eq-redis_count_iff m name ops short small apart called =
    let (is, down, count) = keyed-Counts m name ops apart in
    let mine : (mysql_counter m).get_count (run (mysql_counter m) ops []) name
        ≡ some (tally name ops +ℤ one_if (starts_down name ops)) =
      mysql_count_lem m name ops short small ∙ rw (is, down, count, called) refl in
    let theirs : redis_counter.get_count (run redis_counter ops []) name
        ≡ some (to_int (tally name ops)) =
      redis_count_lem name ops
      ∙ ap (λ b. if b then some (to_int (tally name ops)) else none) called in
    let total = tally name ops in
    let reached : counted mysql_fresh name ops none
        ≡ some (total +ℤ one_if (starts_down name ops)) =
      counted_mysql name ops
      ∙ ap (λ b. if b then some (total +ℤ one_if (starts_down name ops)) else none) called in
    let whole : IsInt (total +ℤ one_if (starts_down name ops)) =
      Within-IsInt (0 + length ops) _
        (subst (Within (0 + length ops)) reached (counted-Within name ops 0 none tt))
        (omega arith) in
    (
      λ same. elim (Bool-cases (starts_down name ops)) [
        | inl down ↦
            let fits : IsInt (total +ℤ pos 1) = subst (λ b. IsInt (total +ℤ one_if b)) down whole in
            let there : Option ℤ = some (total +ℤ pos 1) in
            let same_value : there ≡ some (to_int total) =
              ap (λ b. some (total +ℤ one_if b)) (sym down) ∙ sym mine ∙ same ∙ theirs in
            absurd
              (to_int_ne total (to_int_fits (total +ℤ pos 1) fits ∙ some-injective _ _ same_value))
        | inr up ↦ up
      ],
      λ up.
          let fits : IsInt total =
            subst IsInt (ap (λ b. total +ℤ one_if b) up ∙ +ℤ-zero total) whole in
          mine
          ∙ ap some (ap (λ b. total +ℤ one_if b) up ∙ +ℤ-zero total ∙ sym (to_int_fits total fits))
          ∙ sym theirs,
    )
