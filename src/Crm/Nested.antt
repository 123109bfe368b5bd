-- ===== src/Crm/Nested.antt =====
-- The methods of RawJdbcCustomerRepository.java inside another method that has opened the connection.
use joshlong_examples.Common.{
  ℕ, ◌≡◌, refl, sym, subst, ap, ◌∙◌, Bool, true, false, Option, none, some, if◌then◌else◌,
}
use joshlong_examples.Common.Int.{ℤ, pos, ◌+ℤ◌, to_int}
use joshlong_examples.Crm.Exceptions.{
  Outcome, returned, sql_exception, null_pointer, Action, pure, not_null, catch_sql, ◌>>=◌,
}
use joshlong_examples.Crm.Driver.{ResultSet, at_end, next_throws, next_row, Driver, Customer}
use joshlong_examples.Crm.Raw.{
  Frame, null_to_zero, call, method, close_thread_connection, close_statement, clean_up,
  open_connection, query_with, get_customer_by_id, by_first_key, read_keys, insert_with, insert_sql,
}
use joshlong_examples.Crm.Pool.{Pool}
use joshlong_examples.Crm.Keeps.{
  Same, Depths, Keeps, keeps_rules, Keeps-pure, Keeps-raise_sql, Keeps-not_null, Keeps-call,
  Keeps-bind, Keeps-catch_sql,
}
use joshlong_examples.Crm.Statements.{Keeps-query_with, Keeps-close_statement}
use joshlong_examples.Crm.Opening.{
  deeper, open_inside, started, open_connection-started, catch_sql-from, finally_state,
  close_inside,
}

module _ {d : Driver} (pool : Pool d) where
  -- With a connection, inside n methods.
  abbrev pub Inside : ℕ → Depths pool
  Inside n o depth = ((c : d.Connection) × (o ≡ some c)) × (depth ≡ some (pos n))

  pub Keeps-started :
      {A : Type 0} (P : Depths pool) (b : Bool) (f : d.Connection → Action (Frame d) A)
      (o : Option d.Connection)
      → ((c : d.Connection) → Keeps pool P (f c))
      → Keeps pool P (started b f o)
  Keeps-started P b f o h = search (keeps_rules, h, pool.held-set_auto_commit)

  -- `try` of a method that another one has called.
  try_inside :
      {A : Type 0} (b : Bool) (f : d.Connection → Action (Frame d) A) (last : Action (Frame d) A)
      (s : Frame d)
      → ((c : d.Connection) → Keeps pool (Inside 2) (f c))
      → Keeps pool (Inside 2) last
      → Inside 1 s.thread_connection s.depth
      → let t = (catch_sql (open_connection b >>= f) last s).1 in
        (t.thread_connection ≡ s.thread_connection)
        × (t.depth ≡ some (pos 2))
        × (pool.held t.world ≡ pool.held s.world)
  unfolding Keeps to_int ◌+ℤ◌
  try_inside {A} b f last s h k ((c, at), e) =
      let opened = record s { connection = some c; depth = deeper s } in
      let two : opened.depth ≡ some (pos 2) = ap (λ n. some (to_int (null_to_zero n +ℤ pos 1))) e in
      let run =
        catch_sql-from _ _ last s opened
          (open_connection-started b f s _ (some c) (open_inside s c at)) in
      let same =
        Keeps-catch_sql pool (Inside 2) (started b f (some c)) last
          (Keeps-started (Inside 2) b f (some c) h) k opened ((c, at), two) in
      subst
        (λ (p : Outcome A × Frame d).
          (p.1.thread_connection ≡ s.thread_connection)
          × (p.1.depth ≡ some (pos 2))
          × (pool.held p.1.world ≡ pool.held s.world))
        (sym run) (same.0, same.1 ∙ two, same.2)

  pub clean_up_lem :
      (s t : Frame d) → (close_thread_connection s).1 ≡ t → Same pool t (clean_up s).1
  unfolding clean_up Keeps ◌>>=◌
  clean_up_lem s t e = either (close_thread_connection s) e
    where
      either :
          (p : Outcome Unit × Frame d)
          → p.1 ≡ t
          → Same pool t (◌>>=◌ {S = Frame d} (λ _. p) (λ _. close_statement) s).1
      either (returned a, u) e =
          subst (λ v. Same pool v (close_statement u).1) e
            (Keeps-close_statement pool (λ _ _. Unit {0}) u tt)
      either (sql_exception, u) e = subst (λ v. Same pool v u) e (refl, refl, refl)
      either (null_pointer, u) e = subst (λ v. Same pool v u) e (refl, refl, refl)

  -- `getCustomerById` where another method has opened the connection.
  Keeps-get_customer_by_id :
      (customer_id : ℤ) → Keeps pool (Inside 1) (get_customer_by_id customer_id)
  unfolding Keeps get_customer_by_id method
  Keeps-get_customer_by_id customer_id s i =
      let own = record s { connection = none; statement = none } in
      let tried = catch_sql (open_connection true >>= query_with customer_id) (pure none) in
      let t = (tried own).1 in
      let h =
        try_inside true (query_with customer_id) (pure none) own
          (Keeps-query_with pool (Inside 2) customer_id) (Keeps-pure pool (Inside 2) none) i in
      let cleaned = clean_up_lem t _ (close_inside t h.1) in
      subst
        (λ (u : Frame d).
          (u.thread_connection ≡ s.thread_connection)
          × (u.depth ≡ s.depth)
          × (pool.held u.world ≡ pool.held s.world))
        (sym (finally_state tried clean_up own))
        (cleaned.0 ∙ h.0, cleaned.1 ∙ sym i.1, cleaned.2 ∙ h.2)

  Keeps-by_first_key : (keys : ResultSet) → Keeps pool (Inside 1) (by_first_key keys)
  unfolding by_first_key
  Keeps-by_first_key at_end = Keeps-pure pool (Inside 1) none
  Keeps-by_first_key next_throws = Keeps-raise_sql pool (Option Customer) (Inside 1)
  Keeps-by_first_key (next_row row rest) = search (keeps_rules, Keeps-get_customer_by_id)

  Keeps-read_keys : (p : d.Statement) → Keeps pool (Inside 1) (read_keys p)
  unfolding read_keys
  Keeps-read_keys p =
      Keeps-bind pool (Inside 1) (call (d.get_generated_keys p)) _
        (Keeps-call pool (Inside 1) (d.get_generated_keys p) (pool.held-get_generated_keys p))
        (λ keys.
          Keeps-bind pool (Inside 1) (not_null keys) _ (Keeps-not_null pool (Inside 1) keys)
            (λ rows.
              Keeps-bind pool (Inside 1) (by_first_key rows) _ (Keeps-by_first_key rows)
                (λ customer.
                  Keeps-bind pool (Inside 1) (call (d.close_keys p)) _
                    (Keeps-call pool (Inside 1) (d.close_keys p) (pool.held-close_keys p))
                    (λ u. Keeps-pure pool (Inside 1) customer))))

  Keeps-read_keys_if :
      (p : d.Statement) (b : Bool) → Keeps pool (Inside 1) (if b then read_keys p else pure none)
  Keeps-read_keys_if p true = Keeps-read_keys p
  Keeps-read_keys_if p false = Keeps-pure pool (Inside 1) none

  pub Keeps-insert_with :
      (customer : Customer) (c : d.Connection) → Keeps pool (Inside 1) (insert_with customer c)
  unfolding insert_with
  Keeps-insert_with customer c =
      search
        (
          keeps_rules,
          Keeps-read_keys_if,
          pool.held-prepare_returning_keys c insert_sql,
          pool.held-set_string,
          pool.held-execute_update,
        )
        depth 14
