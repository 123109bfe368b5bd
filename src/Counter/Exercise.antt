-- ===== src/Counter/Exercise.antt =====
-- What `exercise` of Main.java logs of either counter.
use joshlong_examples.Common.{
  subst, length, ◌≤◌, find-put, ◌≡◌, refl, sym, ap, ◌∙◌, Option, none, some, if◌then◌else◌, Text,
  codes, text_eq_iff, Table, find, put,
}
use joshlong_examples.Common.Int.{
  ℤ, pos, negsuc, ◌+ℤ◌, +ℤ_assoc, to_int, to_int-IsInt, to_int_fits, IsInt,
}
use joshlong_examples.Counter.Decimal.{show, parse_int}
use joshlong_examples.Counter.Stores.{
  Call, done, threw, state_of, modify_current, modify_key, redis_count, redis_counter, upsert,
  Mysql, fetch, mysql_counter, and_then, exercise,
}
use joshlong_examples.Counter.Readback.{parse_int-show}
use joshlong_examples.Counter.Redis.{stored, find-modify_key_self, parse_int-zero}
use joshlong_examples.Counter.Statements.{changed, upsert-done}

-- A value that may be missing, which counts as 0.
abbrev pub value : Option ℤ → ℤ
value none = pos 0
value (some v) = v

abbrev bumped : ℤ → Option ℤ → ℤ
bumped d o = elim o [ none ↦ d | some v ↦ v +ℤ d ]

modify_current-done :
    (k : Text) (d n : ℤ) (current : Text) (s : Table Text)
    → parse_int current ≡ some n
    → modify_current k d current s ≡ done (put k (show (to_int (n +ℤ d))) s)
unfolding modify_current
modify_current-done k d n current s e =
    ap
      (λ o. elim o as (λ _. Call (Table Text)) [
        | none ↦ threw s
        | some m ↦ done (put k (show (to_int (m +ℤ d))) s)
      ])
      e

modify_key-from :
    (k : Text) (d : ℤ) (s : Table Text) (o : Option Text)
    → find k s ≡ o
    → modify_key k d s ≡ (elim o as (λ _. Call (Table Text)) [
      | none ↦ modify_current k d (codes "0") (put k (codes "0") s)
      | some current ↦ modify_current k d current s
    ])
unfolding modify_key
modify_key-from k d s o h =
    ap
      (λ p. elim p as (λ _. Call (Table Text)) [
        | none ↦ modify_current k d (codes "0") (put k (codes "0") s)
        | some current ↦ modify_current k d current s
      ])
      h

modify_key-done :
    (k : Text) (d : ℤ) (s : Table Text) (o : Option ℤ)
    → find k s ≡ stored o
    → (t : Table Text) × (modify_key k d s ≡ done t)
modify_key-done k d s none h = (
  _,
  modify_key-from k d s none h
      ∙ modify_current-done k d (pos 0) (codes "0") (put k (codes "0") s) parse_int-zero,
)
modify_key-done k d s (some v) h = (
  _,
  modify_key-from k d s (some (show (to_int v))) h
      ∙ modify_current-done k d (to_int v) (show (to_int v)) s
          (parse_int-show (to_int v) (to_int-IsInt v)),
)

-- A call on a value that is stored ends, with the next value.
modify_key-stored :
    (k : Text) (d : ℤ) (s : Table Text) (o : Option ℤ)
    → find k s ≡ stored o
    → (t : Table Text) × (modify_key k d s ≡ done t) × (find k t ≡ stored (some (bumped d o)))
unfolding state_of
modify_key-stored k d s o h =
    let (t, e) = modify_key-done k d s o h in
    (t, e, ap (λ c. find k (state_of c)) (sym e) ∙ find-modify_key_self k d s o h)

redis_count-stored :
    (k : Text) (v : ℤ) (s : Table Text)
    → find k s ≡ stored (some v)
    → redis_count s k ≡ some (to_int v)
unfolding redis_count
redis_count-stored k v s h =
    ap (λ o. elim o as (λ _. Option ℤ) [ none ↦ none | some t ↦ parse_int t ]) h
    ∙ parse_int-show (to_int v) (to_int-IsInt v)

fetch-found :
    (m : Mysql) (k : Text) (v : ℤ) (t : Table ℤ)
    → find (m.key_of k) t ≡ some v
    → IsInt v
    → fetch m t k ≡ some v
unfolding fetch
fetch-found m k v t h fits =
    ap (λ o. elim o as (λ _. Option ℤ) [ none ↦ none | some w ↦ m.get_int w ]) h
    ∙ m.get_int_lem v fits

-- A statement on a short name, whose value is an `int`, ends with the next value.
upsert-found :
    (m : Mysql) (k : Text) (fresh added : ℤ) (t : Table ℤ) (o : Option ℤ)
    → length k ≤ 255
    → find (m.key_of k) t ≡ o
    → IsInt (changed fresh added o)
    → (u : Table ℤ) × (upsert m k fresh added t ≡ done u)
      × (find (m.key_of k) u ≡ some (changed fresh added o))
upsert-found m k fresh added t o short h fits =
    let z = changed fresh added o in
    (
      put (m.key_of k) z t,
      upsert-done m k (m.key_of k) fresh added t o (m.column_lem k short) h fits,
      find-put (m.key_of k) (m.key_of k) z t
          ∙ ap (λ b. if b then some z else find (m.key_of k) t)
              ((text_eq_iff (m.key_of k) (m.key_of k)).1 refl),
    )

bumped_value : (o : Option ℤ) → bumped (pos 1) o ≡ value o +ℤ pos 1
unfolding ◌+ℤ◌
bumped_value none = refl
bumped_value (some v) = refl

-- Two more, and then one less.
twice_value : (o : Option ℤ) → bumped (pos 1) o +ℤ pos 1 ≡ value o +ℤ pos 2
unfolding ◌+ℤ◌
twice_value o = ap (λ z. z +ℤ pos 1) (bumped_value o) ∙ +ℤ_assoc (value o) (pos 1) (pos 1)

after_value : (o : Option ℤ) → bumped (pos 1) o +ℤ pos 1 +ℤ negsuc 0 ≡ value o +ℤ pos 1
unfolding ◌+ℤ◌
after_value o = ap (λ z. z +ℤ negsuc 0) (twice_value o) ∙ +ℤ_assoc (value o) (pos 2) (negsuc 0)

abbrev both : Option ℤ → Option ℤ → Option (ℤ × ℤ)
both a b = elim a [
  | none ↦ none
  | some first ↦ elim b [ none ↦ none | some second ↦ some (first, second) ]
]

abbrev logged : Option ℤ → Option (ℤ × ℤ)
logged o = some (value o +ℤ pos 2, value o +ℤ pos 1)

both-logged :
    (o a b : Option ℤ)
    → a ≡ some (bumped (pos 1) o +ℤ pos 1)
    → b ≡ some (bumped (pos 1) o +ℤ pos 1 +ℤ negsuc 0)
    → both a b ≡ logged o
both-logged o a b ea eb =
    ap (λ x. both x b) (ea ∙ ap some (twice_value o))
    ∙ ap (both (some (value o +ℤ pos 2))) (eb ∙ ap some (after_value o))

-- The values on the way from v to two more are of the type `int`.
abbrev pub HasRoom : ℤ → Type 0
HasRoom v = IsInt (v +ℤ pos 1) × IsInt (v +ℤ pos 2)

exercise_mysql :
    (m : Mysql) (key : Text) (t : Table ℤ) (o : Option ℤ)
    → length key ≤ 255
    → find (m.key_of key) t ≡ o
    → HasRoom (value o)
    → exercise (mysql_counter m) key t ≡ logged o
unfolding exercise and_then
exercise_mysql m key t o short h (one, two) =
    let (t1, e1, h1) =
      upsert-found m key (pos 1) (pos 1) t o short h (subst IsInt (sym (bumped_value o)) one) in
    let (t2, e2, h2) =
      upsert-found m key (pos 1) (pos 1) t1 _ short h1 (subst IsInt (sym (twice_value o)) two) in
    let (t3, e3, h3) =
      upsert-found m key (pos 0) (negsuc 0) t2 _ short h2 (subst IsInt (sym (after_value o)) one) in
    ap (λ c. and_then c (λ once. and_then (upsert m key (pos 1) (pos 1) once) (ends key))) e1
    ∙ ap (λ c. and_then c (ends key)) e2
    ∙ ap
        (λ c. elim (fetch m t2 key) as (λ _. Option (ℤ × ℤ)) [
          | none ↦ none
          | some first ↦ and_then c (λ after. elim (fetch m after key) as (λ _. Option (ℤ × ℤ)) [
            | none ↦ none
            | some second ↦ some (first, second)
          ])
        ])
        e3
    ∙ both-logged o _ _ (fetch-found m key _ t2 h2 (subst IsInt (sym (twice_value o)) two))
        (fetch-found m key _ t3 h3 (subst IsInt (sym (after_value o)) one))
  where
    ends : Text → Table ℤ → Option (ℤ × ℤ)
    ends k twice = elim (fetch m twice k) as (λ _. Option (ℤ × ℤ)) [
      | none ↦ none
      | some first ↦ and_then (upsert m k (pos 0) (negsuc 0) twice) (λ after.
          elim (fetch m after k) as (λ _. Option (ℤ × ℤ)) [
            | none ↦ none
            | some second ↦ some (first, second)
          ])
    ]

exercise_redis :
    (key : Text) (s : Table Text) (o : Option ℤ)
    → find key s ≡ stored o
    → HasRoom (value o)
    → exercise redis_counter key s ≡ logged o
unfolding exercise and_then
exercise_redis key s o h (one, two) =
    let (s1, e1, h1) = modify_key-stored key (pos 1) s o h in
    let (s2, e2, h2) = modify_key-stored key (pos 1) s1 (some (bumped (pos 1) o)) h1 in
    let (s3, e3, h3) = modify_key-stored key (negsuc 0) s2 (some (bumped (pos 1) o +ℤ pos 1)) h2 in
    ap (λ c. and_then c (λ once. and_then (modify_key key (pos 1) once) (ends key))) e1
    ∙ ap (λ c. and_then c (ends key)) e2
    ∙ ap
        (λ c. elim (redis_count s2 key) as (λ _. Option (ℤ × ℤ)) [
          | none ↦ none
          | some first ↦ and_then c (λ after.
              elim (redis_count after key) as (λ _. Option (ℤ × ℤ)) [
                | none ↦ none
                | some second ↦ some (first, second)
              ])
        ])
        e3
    ∙ both-logged o _ _
        (redis_count-stored key _ s2 h2
          ∙ ap some (to_int_fits _ (subst IsInt (sym (twice_value o)) two)))
        (redis_count-stored key _ s3 h3
          ∙ ap some (to_int_fits _ (subst IsInt (sym (after_value o)) one)))
  where
    ends : Text → Table Text → Option (ℤ × ℤ)
    ends k twice = elim (redis_count twice k) as (λ _. Option (ℤ × ℤ)) [
      | none ↦ none
      | some first ↦ and_then (modify_key k (negsuc 0) twice) (λ after.
          elim (redis_count after k) as (λ _. Option (ℤ × ℤ)) [
            | none ↦ none
            | some second ↦ some (first, second)
          ])
    ]

-- Where a store of Redis has, under a name of at most 255 characters, the text of the number that the table of
-- MySQL has for it, as an `int`, or neither has any, and that number, or 0, plus one and plus two are of the
-- type `int`: `exercise` throws with neither counter, and logs with both the number plus two, and then
-- plus one.
pub exercise_lem :
    (m : Mysql) (key : Text) (s : Table Text) (t : Table ℤ) (o : Option ℤ)
    → length key ≤ 255
    → find key s ≡ stored o
    → find (m.key_of key) t ≡ o
    → HasRoom (value o)
    → (exercise redis_counter key s ≡ some (value o +ℤ pos 2, value o +ℤ pos 1))
      × (exercise (mysql_counter m) key t ≡ some (value o +ℤ pos 2, value o +ℤ pos 1))
exercise_lem m key s t o short there here room =
    (exercise_redis key s o there room, exercise_mysql m key t o short here room)
