-- ===== src/Counter/Races.antt =====
-- `modifyKey` of RedisCounter.java in two threads, one command of Redis at a time.
use mathlib.Core.Bool.{not}
use joshlong_examples.Common.{
  ◌≡◌, refl, sym, ap, ◌∙◌, Bool, true, false, Option, none, some, if◌then◌else◌, Text, codes,
  text_eq_iff, Table, find, put, find-put, List, [], ◌∷◌,
}
use joshlong_examples.Common.Int.{
  +ℤ_assoc, +ℤ_comm, ℤ, ◌+ℤ◌, IsInt, to_int, to_int-IsInt, to_int-+ℤ,
}
use joshlong_examples.Counter.Decimal.{show, parse_int}
use joshlong_examples.Counter.Stores.{Call, done, threw, state_of, modify_current, modify_key}
use joshlong_examples.Counter.Readback.{parse_int-show}

-- Where a thread stands in `modifyKey`: before `get`, before the first `set`, before the last one with
-- the text that it goes by, or at the end.
pub data Thread : Type 0 where
  gets : ℤ → Thread
  inits : ℤ → Thread
  sets : ℤ → Text → Thread
  returned : Thread

-- The next command of a thread.
unfoldable pub thread_step : Text → Thread → Table Text → Thread × Table Text
thread_step k (gets d) s = elim (find k s) [
  | none ↦ (inits d, s)
  | some current ↦ (sets d current, s)
]
thread_step k (inits d) s = (sets d (codes "0"), put k (codes "0") s)
thread_step k (sets d current) s = (returned, state_of (modify_current k d current s))
thread_step k returned s = (returned, s)

-- The commands of one thread, undisturbed.
abbrev alone : Text → Thread × Table Text → Table Text
alone k (t, s) = (thread_step k (thread_step k t s).0 (thread_step k t s).1).1

-- The commands of one thread, undisturbed, are a call of `modifyKey`.
thread_step-modify_key :
    (k : Text) (d : ℤ) (s : Table Text)
    → alone k (thread_step k (gets d) s) ≡ state_of (modify_key k d s)
unfolding thread_step modify_key
thread_step-modify_key k d s = either (find k s)
  where
    either :
        (o : Option Text)
        → alone k (elim o as (λ _. Thread × Table Text) [
          | none ↦ (inits d, s)
          | some current ↦ (sets d current, s)
        ])
          ≡ state_of (elim o as (λ _. Call (Table Text)) [
            | none ↦ modify_current k d (codes "0") (put k (codes "0") s)
            | some current ↦ modify_current k d current s
          ])
    either none = refl
    either (some current) = refl

-- Two threads on one key, and the next command of either.
pub record Threads : Type 0 where
  pub first : Thread
  pub second : Thread
  pub store : Table Text

unfoldable pub next : Text → Bool → Threads → Threads
unfolding thread_step
next k true w = let (t, s) = thread_step k w.first w.store in record w { first = t; store = s }
next k false w = let (t, s) = thread_step k w.second w.store in record w { second = t; store = s }

abbrev pub schedule : Text → List Bool → Threads → Threads
schedule k [] w = w
schedule k (b ∷ bs) w = schedule k bs (next k b w)

-- Two threads that are about to call `modifyKey`, with what each adds.
abbrev pub both_start : ℤ → ℤ → Table Text → Threads
both_start d e s = record { first = gets d; second = gets e; store = s }

reads :
    (k : Text) (d : ℤ) (s : Table Text) (current : Text)
    → find k s ≡ some current
    → thread_step k (gets d) s ≡ (sets d current, s)
unfolding thread_step
reads k d s current h =
    ap (λ o. elim o as (λ _. Thread × Table Text) [ none ↦ (inits d, s) | some t ↦ (sets d t, s) ])
      h

writes :
    (k : Text) (d n : ℤ) (s : Table Text) (current : Text)
    → parse_int current ≡ some n
    → thread_step k (sets d current) s ≡ (returned, put k (show (to_int (n +ℤ d))) s)
unfolding thread_step modify_current state_of
writes k d n s current h =
    ap
      (λ o. (
        returned,
        state_of (elim o as (λ _. Call (Table Text)) [
          | none ↦ threw s
          | some m ↦ done (put k (show (to_int (m +ℤ d))) s)
        ]),
      ))
      h

next_first :
    (k : Text) (w : Threads) (t : Thread) (s : Table Text)
    → thread_step k w.first w.store ≡ (t, s)
    → next k true w ≡ record w { first = t; store = s }
unfolding next
next_first k w t s h = ap (λ p. record w { first = p.0; store = p.1 }) h

next_second :
    (k : Text) (w : Threads) (t : Thread) (s : Table Text)
    → thread_step k w.second w.store ≡ (t, s)
    → next k false w ≡ record w { second = t; store = s }
unfolding next
next_second k w t s h = ap (λ p. record w { second = p.0; store = p.1 }) h

-- Whoever writes last, in a schedule in which both have read before either writes.
abbrev pub crossed : Bool → Bool → List Bool
crossed reader writer = reader ∷ not reader ∷ writer ∷ not writer ∷ []

-- One call after the other.
abbrev pub in_turn : Bool → List Bool
in_turn b = b ∷ b ∷ not b ∷ not b ∷ []

find-put_self : (k : Text) (v : Text) (s : Table Text) → find k (put k v s) ≡ some v
find-put_self k v s =
    find-put k k v s ∙ ap (λ b. if b then some v else find k s) ((text_eq_iff k k).1 refl)

-- Both have read the same text.
abbrev both_set : ℤ → ℤ → Text → Table Text → Threads
both_set d e current s = record { first = sets d current; second = sets e current; store = s }

both_read :
    (k : Text) (d e : ℤ) (s : Table Text) (current : Text) (b : Bool)
    → find k s ≡ some current
    → next k (not b) (next k b (both_start d e s)) ≡ both_set d e current s
both_read k d e s current true h =
    ap (next k false) (next_first k (both_start d e s) _ _ (reads k d s current h))
    ∙ next_second k _ _ _ (reads k e s current h)
both_read k d e s current false h =
    ap (next k true) (next_second k (both_start d e s) _ _ (reads k e s current h))
    ∙ next_first k _ _ _ (reads k d s current h)

both_write :
    (k : Text) (d e z : ℤ) (s : Table Text) (current : Text) (b : Bool)
    → parse_int current ≡ some z
    → (next k (not b) (next k b (both_set d e current s))).store
      ≡ put k
          (show (to_int (z +ℤ (if b then e else d))))
          (put k (show (to_int (z +ℤ (if b then d else e)))) s)
both_write k d e z s current true h =
    ap (λ w. (next k false w).store)
      (next_first k (both_set d e current s) _ _ (writes k d z s current h))
    ∙ ap {A = Threads} (λ w. w.store)
        (next_second k _ _ _ (writes k e z (put k (show (to_int (z +ℤ d))) s) current h))
both_write k d e z s current false h =
    ap (λ w. (next k true w).store)
      (next_second k (both_set d e current s) _ _ (writes k e z s current h))
    ∙ ap {A = Threads} (λ w. w.store)
        (next_first k _ _ _ (writes k d z (put k (show (to_int (z +ℤ e))) s) current h))

-- A whole call of the first thread, and of the second.
first_calls :
    (k : Text) (d z : ℤ) (t : Thread) (s : Table Text)
    → find k s ≡ some (show z)
    → IsInt z
    → next k true (next k true (record { first = gets d; second = t; store = s }))
      ≡ record { first = returned; second = t; store = put k (show (to_int (z +ℤ d))) s }
first_calls k d z t s h fits =
    ap (next k true) (next_first k _ _ _ (reads k d s (show z) h))
    ∙ next_first k _ _ _ (writes k d z s (show z) (parse_int-show z fits))

second_calls :
    (k : Text) (d z : ℤ) (t : Thread) (s : Table Text)
    → find k s ≡ some (show z)
    → IsInt z
    → next k false (next k false (record { first = t; second = gets d; store = s }))
      ≡ record { first = t; second = returned; store = put k (show (to_int (z +ℤ d))) s }
second_calls k d z t s h fits =
    ap (next k false) (next_second k _ _ _ (reads k d s (show z) h))
    ∙ next_second k _ _ _ (writes k d z s (show z) (parse_int-show z fits))

one_after_the_other :
    (k : Text) (d e z : ℤ) (s : Table Text) (b : Bool)
    → find k s ≡ some (show z)
    → IsInt z
    → find k (schedule k (in_turn b) (both_start d e s)).store ≡ some (show (to_int (z +ℤ d +ℤ e)))
one_after_the_other k d e z s true h fits =
    let after = put k (show (to_int (z +ℤ d))) s in
    ap (λ w. find k (next k false (next k false w)).store) (first_calls k d z (gets e) s h fits)
    ∙ ap {A = Threads} (λ w. find k w.store)
        (second_calls k e (to_int (z +ℤ d)) returned after
          (find-put_self k (show (to_int (z +ℤ d))) s) (to_int-IsInt (z +ℤ d)))
    ∙ find-put_self k (show (to_int (to_int (z +ℤ d) +ℤ e))) after
    ∙ ap (λ n. some (show n)) (to_int-+ℤ (z +ℤ d) e)
one_after_the_other k d e z s false h fits =
    let after = put k (show (to_int (z +ℤ e))) s in
    ap (λ w. find k (next k true (next k true w)).store) (second_calls k e z (gets d) s h fits)
    ∙ ap {A = Threads} (λ w. find k w.store)
        (first_calls k d (to_int (z +ℤ e)) returned after
          (find-put_self k (show (to_int (z +ℤ e))) s) (to_int-IsInt (z +ℤ e)))
    ∙ find-put_self k (show (to_int (to_int (z +ℤ e) +ℤ d))) after
    ∙ ap (λ n. some (show n)) (to_int-+ℤ (z +ℤ e) d)
    ∙ ap (λ n. some (show (to_int n)))
        (+ℤ_assoc z e d ∙ ap (λ n. z +ℤ n) (+ℤ_comm e d) ∙ sym (+ℤ_assoc z d e))

-- Two threads call `modifyKey` with one key, which has the text of an `int` z. Where both read before either
-- writes, the last one to write overwrites what the other did, whichever of them reads and writes first;
-- where the calls follow one another, both are counted.
pub crossed-lost :
    (k : Text) (d e z : ℤ) (s : Table Text) (reader writer : Bool)
    → find k s ≡ some (show z)
    → IsInt z
    → (find k (schedule k (crossed reader writer) (both_start d e s)).store
        ≡ some (show (to_int (z +ℤ (if writer then e else d)))))
      × (find k (schedule k (in_turn reader) (both_start d e s)).store
          ≡ some (show (to_int (z +ℤ d +ℤ e))))
crossed-lost k d e z s reader writer h fits =
    let last = if writer then e else d in
    let earlier = if writer then d else e in
    (
      ap (λ w. find k (next k (not writer) (next k writer w)).store)
            (both_read k d e s (show z) reader h)
          ∙ ap (find k) (both_write k d e z s (show z) writer (parse_int-show z fits))
          ∙ find-put_self k (show (to_int (z +ℤ last))) (put k (show (to_int (z +ℤ earlier))) s),
      one_after_the_other k d e z s reader h fits,
    )
