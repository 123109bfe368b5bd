-- ===== src/Crm/Commits.antt =====
-- A customer whom `saveCustomer` returns is stored for good.
use joshlong_examples.Common.{
  ℕ, ◌+◌, ◌<◌, ◌≡◌, refl, sym, subst, ◌∙◌, arith, Bool, true, false, Option, none, some,
  if◌then◌else◌, ltb,
}
use joshlong_examples.Common.Int.{ℤ}
use joshlong_examples.Crm.Exceptions.{
  Outcome, returned, sql_exception, null_pointer, Action, pure, not_null, ◌>>=◌, ◌>>◌,
}
use joshlong_examples.Crm.Driver.{Reply, ResultSet, at_end, next_throws, next_row, Driver, Customer}
use joshlong_examples.Crm.Raw.{
  Frame, call, reply, clean_up, open_connection, keep_statement, query_with, get_customer_by_id,
  by_first_key, read_keys, insert_with, roll_back, save_customer, insert_sql,
}
use joshlong_examples.Crm.Transactions.{View, Transactions}
use joshlong_examples.Crm.Triples.{
  Ensures, Triple, Triple-pure, Triple-raise_sql, Triple-not_null, Triple-reply, Triple-call,
  Triple-bind, Triple-catch_sql, Triple-finally, Triple-method, Triple-calm, Triple-keep_statement,
}
use joshlong_examples.Crm.Settling.{
  answered, Triple-open_connection, Triple-query_with, Triple-clean_up,
}

-- Nothing is open, with n rows; in the second case in a transaction that is to be committed.
abbrev Before : ℕ → View → Type 0
Before n v = (v.uncommitted ≡ 0) × (v.stored ≡ n)

abbrev Begun : ℕ → View → Type 0
Begun n v = (v.uncommitted ≡ 0) × (v.stored ≡ n) × (v.auto_commit ≡ false)

-- m rows in all, some of them perhaps not committed yet; and m rows, all of them committed.
abbrev Pending : ℕ → View → Type 0
Pending m v = v.stored + v.uncommitted ≡ m

abbrev Settled : ℕ → View → Type 0
Settled m v = (v.uncommitted ≡ 0) × (v.stored ≡ m)

-- Where a customer is returned.
abbrev IfFound : (View → Type 0) → Option Customer → View → Type 0
IfFound P none v = Unit
IfFound P (some c) v = P v

abbrev Grown : ℕ → View → Type 0
Grown n v = (v.uncommitted ≡ 0) × (n < v.stored)

module _ {d : Driver} (tx : Transactions d) where
  weaken :
      {A : Type 0} (P : View → Type 0) (Q R : A → View → Type 0) (m : Action (Frame d) A)
      → Triple tx P m Q
      → ((a : A) (v : View) → Q a v → R a v)
      → Triple tx P m R
  unfolding Triple
  weaken {A} P Q R m h k s i = either (m s).0 (tx.view (m s).1.world) (h s i)
    where
      either : (r : Outcome A) (v : View) → Ensures Q r v → Ensures R r v
      either (returned a) v e = k a v e
      either sql_exception v e = tt
      either null_pointer v e = tt

  settled-IfFound : (P : View → Type 0) (o : Option Customer) (v : View) → P v → IfFound P o v
  settled-IfFound P none v h = tt
  settled-IfFound P (some c) v h = h

  anything :
      {A : Type 0} (m : Action (Frame d) A) → Triple tx (λ _. Unit {0}) m (λ _. λ _. Unit {0})
  unfolding Triple
  anything {A} m s i = either (m s).0 (tx.view (m s).1.world)
    where
      either : (r : Outcome A) (v : View) → Ensures (λ _. λ _. Unit {0}) r v
      either (returned a) v = tt
      either sql_exception v = tt
      either null_pointer v = tt

  -- The block `finally`, where it matters only what is so when a customer is returned.
  clean_up-IfFound :
      (P : View → Type 0) (o : Option Customer)
      → ((v : View) → P v → v.uncommitted ≡ 0)
      → Triple tx (IfFound P o) clean_up (λ _. IfFound P o)
  unfolding Triple
  clean_up-IfFound P none h s i = anything clean_up s tt
  clean_up-IfFound P (some c) h s i = Triple-clean_up tx P h s i

  Triple-get_customer_by_id :
      (m : ℕ) (customer_id : ℤ)
      → Triple tx (Pending m) (get_customer_by_id customer_id) (IfFound (Settled m))
  unfolding get_customer_by_id
  Triple-get_customer_by_id m customer_id = Triple-method tx (Pending m) (IfFound (Settled m)) _ (
      Triple-finally tx (Pending m) (IfFound (Settled m)) _ clean_up
        (Triple-catch_sql tx (Pending m) (IfFound (Settled m)) _ (pure none)
          (Triple-bind tx (Pending m) (λ _. Settled m) (IfFound (Settled m)) (open_connection true)
            (query_with customer_id)
            (Triple-open_connection tx (Pending m) (Settled m) true
              (λ w i. omega (arith, (tx.view-get_connection w).0, (tx.view-get_connection w).1))
              (λ v e. (refl, e)))
            (λ c.
              weaken (Settled m) (λ _. Settled m) (IfFound (Settled m)) (query_with customer_id c)
                (Triple-query_with tx (Settled m) customer_id c) (settled-IfFound (Settled m))))
          (Triple-pure tx (IfFound (Settled m)) none))
        (λ o. clean_up-IfFound (Settled m) o (λ v h. h.0)))

  calm_then :
      {A B : Type 0} (P : View → Type 0) (Q : B → View → Type 0) (f : d.World → Reply A × d.World)
      (k : A → Action (Frame d) B)
      → ((w : d.World) → tx.view (f w).1 ≡ tx.view w)
      → ((a : A) → Triple tx P (k a) Q)
      → Triple tx P (call f >>= k) Q
  calm_then P Q f k h = Triple-bind tx P (λ _. P) Q (call f) k (Triple-calm tx P f h)

  nothing_found : (P Q : View → Type 0) → Triple tx P (pure none) (IfFound Q)
  unfolding Triple pure
  nothing_found P Q s i = tt

  Triple-by_first_key :
      (m : ℕ) (keys : ResultSet) → Triple tx (Pending m) (by_first_key keys) (IfFound (Settled m))
  unfolding by_first_key
  Triple-by_first_key m at_end = nothing_found (Pending m) (Settled m)
  Triple-by_first_key m next_throws = Triple-raise_sql tx (Pending m) (IfFound (Settled m))
  Triple-by_first_key m (next_row row rest) =
      Triple-bind tx (Pending m) (λ _. Pending m) (IfFound (Settled m)) (reply (row.get_long_at 1))
        get_customer_by_id (Triple-reply tx (Pending m) (row.get_long_at 1))
        (Triple-get_customer_by_id m)

  Triple-read_keys :
      (m : ℕ) (p : d.Statement) → Triple tx (Pending m) (read_keys p) (IfFound (Settled m))
  unfolding read_keys
  Triple-read_keys m p =
      calm_then (Pending m) (IfFound (Settled m)) (d.get_generated_keys p) _
        (tx.view-get_generated_keys p)
        (λ keys.
          Triple-bind tx (Pending m) (λ _. Pending m) (IfFound (Settled m)) (not_null keys) _
            (Triple-not_null tx (Pending m) keys)
            (λ rows.
              Triple-bind tx (Pending m) (IfFound (Settled m)) (IfFound (Settled m))
                (by_first_key rows) _ (Triple-by_first_key m rows)
                (λ o.
                  calm_then (IfFound (Settled m) o) (IfFound (Settled m)) (d.close_keys p) _
                    (tx.view-close_keys p) (λ u. Triple-pure tx (IfFound (Settled m)) o))))

  Triple-read_keys_if :
      (n k : ℕ) (p : d.Statement)
      → Triple tx (Pending (n + k)) (if ltb 0 k then read_keys p else pure none) (IfFound (Grown n))
  Triple-read_keys_if n k p = either (ltb 0 k) refl
    where
      grown :
          ltb 0 k ≡ true
          → (o : Option Customer) (v : View) → IfFound (Settled (n + k)) o v
          → IfFound (Grown n) o v
      grown e none v h = tt
      grown e (some c) v h = (h.0, ground arith)

      either :
          (b : Bool)
          → ltb 0 k ≡ b
          → Triple tx (Pending (n + k)) (if b then read_keys p else pure none) (IfFound (Grown n))
      either true e =
          weaken (Pending (n + k)) (IfFound (Settled (n + k))) (IfFound (Grown n)) (read_keys p)
            (Triple-read_keys (n + k) p) (grown e)
      either false e = nothing_found (Pending (n + k)) (Grown n)

  Triple-execute_update :
      (n : ℕ) (p : d.Statement)
      → Triple tx (Begun n) (call (d.execute_update p)) (λ k. Pending (n + k))
  Triple-execute_update n p =
      Triple-call tx (Begun n) (λ k. Pending (n + k)) (d.execute_update p)
        (λ w i.
          answered tx _ _ (d.execute_update p w).0
            (λ k e. subst (Pending (n + k)) (sym e) (omega (arith, i.0, i.1)))
            (tx.view-execute_update p w i.2))

  Triple-insert_with :
      (n : ℕ) (customer : Customer) (c : d.Connection)
      → Triple tx (Begun n) (insert_with customer c) (IfFound (Grown n))
  unfolding insert_with
  Triple-insert_with n customer c =
      calm_then (Begun n) (IfFound (Grown n)) (d.prepare_returning_keys c insert_sql) _
        (tx.view-prepare_returning_keys c insert_sql)
        (λ p.
          Triple-bind tx (Begun n) (λ _. Begun n) (IfFound (Grown n)) (keep_statement p) _
            (Triple-keep_statement tx (Begun n) p)
            (λ u.
              calm_then (Begun n) (IfFound (Grown n)) (d.set_string p 1 customer.first_name) _
                (tx.view-set_string p 1 customer.first_name)
                (λ u.
                  calm_then (Begun n) (IfFound (Grown n)) (d.set_string p 2 customer.last_name) _
                    (tx.view-set_string p 2 customer.last_name)
                    (λ u.
                      Triple-bind tx (Begun n) (λ k. Pending (n + k)) (IfFound (Grown n))
                        (call (d.execute_update p)) _ (Triple-execute_update n p)
                        (λ k. Triple-read_keys_if n k p)))))

  Triple-save_customer :
      (n : ℕ) (customer : Customer)
      → Triple tx (Before n) (save_customer customer) (IfFound (Grown n))
  unfolding save_customer
  Triple-save_customer n customer = Triple-method tx (Before n) (IfFound (Grown n)) _ (
      Triple-finally tx (Before n) (IfFound (Grown n)) _ clean_up
        (Triple-catch_sql tx (Before n) (IfFound (Grown n)) _ (roll_back >> pure none)
          (Triple-bind tx (Before n) (λ _. Begun n) (IfFound (Grown n)) (open_connection false)
            (insert_with customer)
            (Triple-open_connection tx (Before n) (Begun n) false
              (λ w i. ((tx.view-get_connection w).1 ∙ i.0, (tx.view-get_connection w).0 ∙ i.1))
              (λ v e. (e.0, e.1, refl)))
            (Triple-insert_with n customer))
          rolled_back)
        (λ o. clean_up-IfFound (Grown n) o (λ v h. h.0)))
    where
      rolled_back : Triple tx (λ _. Unit {0}) (roll_back >> pure none) (IfFound (Grown n))
      rolled_back =
          Triple-bind tx (λ _. Unit {0}) (λ _. λ _. Unit {0}) (IfFound (Grown n)) roll_back
            (λ _. pure none) (anything roll_back) (λ u. nothing_found (λ _. Unit {0}) (Grown n))

-- Of a driver where turning auto-commit on commits what is open, where rows that are changed
-- with auto-commit off stay open, and where to close a connection with nothing open changes
-- nothing: where `saveCustomer` begins with nothing uncommitted and returns a customer,
-- nothing is uncommitted afterwards, and more rows are stored than before.
pub save_customer-Grown :
    {d : Driver} (tx : Transactions d) (customer found : Customer) (s : Frame d)
    → (tx.view s.world).uncommitted ≡ 0
    → (save_customer customer s).0 ≡ returned (some found)
    → let after = tx.view (save_customer customer s).1.world in
      (after.uncommitted ≡ 0) × ((tx.view s.world).stored < after.stored)
unfolding Triple
save_customer-Grown tx customer found s clean e =
    let n = (tx.view s.world).stored in
    let after = tx.view (save_customer customer s).1.world in
    subst (λ (r : Outcome (Option Customer)). Ensures (IfFound (Grown n)) r after) e
      (Triple-save_customer tx n customer s (clean, refl))
