-- ===== src/Crm/Settling.antt =====
-- What the blocks of RawJdbcCustomerRepository.java that open, query and close a connection do to its transaction.
use joshlong_examples.Common.{
  ◌≡◌, refl, sym, subst, Bool, true, false, Option, none, some, if◌then◌else◌,
}
use joshlong_examples.Common.Int.{ℤ}
use joshlong_examples.Crm.Exceptions.{
  pure, gets, not_null, when_some, logged, catch_sql, modify, ◌>>=◌,
}
use joshlong_examples.Crm.Driver.{
  Reply, answers, throws, Row, ResultSet, at_end, next_throws, next_row, Driver,
}
use joshlong_examples.Crm.Raw.{
  is_zero, call, increment_depth, decrement_depth, fill_thread_connection, open_thread_connection,
  release, close_thread_connection, close_statement, clean_up, customer_of, read_customers,
  open_connection, query_with, select_sql,
}
use joshlong_examples.Crm.Transactions.{View, IfAnswers, after_mode, Transactions}
use joshlong_examples.Crm.Triples.{
  Ensures, Triple, stays_rules, stays-pure, stays-bind, Triple-pure, Triple-gets, Triple-raise_sql,
  Triple-not_null, Triple-modify, Triple-call, Triple-bind, Triple-finally, Triple-logged,
  Triple-when_some,
}

module _ {d : Driver} (tx : Transactions d) where
  Triple-fill_thread_connection :
      (P : View → Type 0) (o : Option d.Connection)
      → ((w : d.World) → P (tx.view w) → P (tx.view (d.get_connection w).1))
      → Triple tx P (fill_thread_connection o) (λ _. P)
  unfolding fill_thread_connection Triple catch_sql call pure modify ◌>>=◌
  Triple-fill_thread_connection P none h s i = either (d.get_connection s.world) (h s.world i)
    where
      either :
          (p : Reply d.Connection × d.World)
          → P (tx.view p.1)
          → let m =
              logged
                (call (λ _. p) >>= λ c. modify (λ t. record t { thread_connection = some c })) in
            Ensures (λ _. P) (m s).0 (tx.view (m s).1.world)
      either (answers c, w) e = e
      either (throws, w) e = e
  Triple-fill_thread_connection P (some c) h s i = i

  Triple-customer_of : (P : View → Type 0) (row : Row) → Triple tx P (customer_of row) (λ _. P)
  unfolding customer_of
  Triple-customer_of P row = search stays_rules depth 10

  Triple-read_customers :
      (P : View → Type 0) (rows : ResultSet) → Triple tx P (read_customers rows) (λ _. P)
  unfolding read_customers
  Triple-read_customers P at_end = Triple-pure tx (λ _. P) none
  Triple-read_customers P next_throws = Triple-raise_sql tx P (λ _. P)
  Triple-read_customers P (next_row row rest) =
      search (stays_rules, Triple-customer_of P row, Triple-read_customers P rest) depth 10

  pub Triple-query_with :
      (P : View → Type 0) (customer_id : ℤ) (c : d.Connection)
      → Triple tx P (query_with customer_id c) (λ _. P)
  unfolding query_with
  Triple-query_with P customer_id c =
      search
        (
          stays_rules,
          Triple-read_customers P,
          tx.view-prepare_statement c select_sql,
          tx.view-set_long,
          tx.view-execute_query,
        )
        depth 12

  Triple-increment_depth : (P : View → Type 0) → Triple tx P increment_depth (λ _. P)
  unfolding Triple increment_depth
  Triple-increment_depth P s i = i

  Triple-open_thread_connection :
      (P : View → Type 0)
      → ((w : d.World) → P (tx.view w) → P (tx.view (d.get_connection w).1))
      → Triple tx P open_thread_connection (λ _. P)
  unfolding open_thread_connection
  Triple-open_thread_connection P h =
      stays-bind tx P (gets (λ s. s.thread_connection)) _
        (Triple-gets tx P (λ s. s.thread_connection))
        (λ present.
          stays-bind tx P (fill_thread_connection present) _
            (Triple-fill_thread_connection P present h)
            (λ u.
              stays-bind tx P increment_depth _ (Triple-increment_depth P)
                (λ u. Triple-gets tx P (λ s. s.thread_connection))))

  pub answered :
      {A : Type 0} (P Q : A → Type 0) (r : Reply A)
      → ((a : A) → P a → Q a)
      → IfAnswers r P
      → IfAnswers r Q
  answered P Q (answers a) h e = h a e
  answered P Q throws h e = tt

  -- With a connection, in the mode that is set.
  pub Triple-open_connection :
      (P Q : View → Type 0) (b : Bool)
      → ((w : d.World) → P (tx.view w) → P (tx.view (d.get_connection w).1))
      → ((v : View) → P v → Q (after_mode b v))
      → Triple tx P (open_connection b) (λ _. Q)
  unfolding open_connection
  Triple-open_connection P Q b h k =
      Triple-bind tx P (λ _. P) (λ _. Q) open_thread_connection _
        (Triple-open_thread_connection P h)
        (λ opened.
          Triple-bind tx P (λ _. P) (λ _. Q) (modify (λ s. record s { connection = opened })) _
            (Triple-modify tx P (λ s. record s { connection = opened }) (λ s. refl))
            (λ u.
              Triple-bind tx P (λ _. P) (λ _. Q) (not_null opened) _ (Triple-not_null tx P opened)
                (λ c.
                  Triple-bind tx P (λ _. Q) (λ _. Q) (call (d.set_auto_commit c b)) _
                    (Triple-call tx P (λ _. Q) (d.set_auto_commit c b)
                      (λ w i.
                        answered _ _ (d.set_auto_commit c b w).0
                          (λ u e. subst Q (sym e) (k (tx.view w) i))
                          (tx.view-set_auto_commit c b w)))
                    (λ u. stays-pure tx Q c))))

  Triple-release :
      (P : View → Type 0) (c : d.Connection)
      → ((v : View) → P v → v.uncommitted ≡ 0)
      → Triple tx P (release c) (λ _. P)
  unfolding release
  Triple-release P c h =
      Triple-finally tx P (λ _. P) (logged (call (d.close_connection c)))
        (modify (λ s. record s { thread_connection = none }))
        (Triple-logged tx P (d.close_connection c)
          (λ w i. subst P (sym (tx.view-close_connection c w (h (tx.view w) i))) i))
        (λ u. Triple-modify tx P (λ s. record s { thread_connection = none }) (λ s. refl))

  Triple-release_if :
      (P : View → Type 0) (b : Bool) (o : Option d.Connection)
      → ((v : View) → P v → v.uncommitted ≡ 0)
      → Triple tx P (if b then when_some o release else pure tt) (λ _. P)
  Triple-release_if P true o h = Triple-when_some tx P o release (λ c. Triple-release P c h)
  Triple-release_if P false o h = stays-pure tx P tt

  Triple-decrement_depth : (P : View → Type 0) → Triple tx P decrement_depth (λ _. P)
  unfolding Triple decrement_depth
  Triple-decrement_depth P s i = i

  Triple-close_statement : (P : View → Type 0) → Triple tx P close_statement (λ _. P)
  unfolding close_statement
  Triple-close_statement P =
      stays-bind tx P (gets (λ s. s.statement)) _ (Triple-gets tx P (λ s. s.statement)) (λ o.
        Triple-when_some tx P o _ (λ p.
          Triple-logged tx P (d.close_statement p)
            (λ w i. subst P (sym (tx.view-close_statement p w)) i)))

  pub Triple-clean_up :
      (P : View → Type 0) → ((v : View) → P v → v.uncommitted ≡ 0) → Triple tx P clean_up (λ _. P)
  unfolding clean_up close_thread_connection
  Triple-clean_up P h =
      stays-bind tx P close_thread_connection _
        (stays-bind tx P (gets (λ s. s.thread_connection)) _
          (Triple-gets tx P (λ s. s.thread_connection))
          (λ o.
            stays-bind tx P decrement_depth _ (Triple-decrement_depth P)
              (λ n. Triple-release_if P (is_zero n) o h)))
        (λ u. Triple-close_statement P)
