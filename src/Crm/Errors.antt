-- ===== src/Crm/Errors.antt =====
-- Which exceptions the methods of RawJdbcCustomerRepository.java can throw.
use joshlong_examples.Common.{
  ◌↔◌, ◌≢◌, ◌≡◌, refl, sym, ap, ◌∙◌, Bool, true, false, Option, none, some,
}
use joshlong_examples.Common.Int.{ℤ}
use joshlong_examples.Crm.Exceptions.{
  Outcome, returned, sql_exception, null_pointer, Action, pure, raise_null, catch_sql, ◌>>=◌, ◌>>◌,
  finally,
}
use joshlong_examples.Crm.Driver.{
  Reply, answers, throws, Row, ResultSet, at_end, next_throws, next_row, Driver, Customer,
}
use joshlong_examples.Crm.Raw.{
  Frame, method, clean_up, customer_of, read_customers, open_connection, keep_statement, query_with,
  get_customer_by_id, insert_with, roll_back, save_customer, Request, saves, reads, request,
}
use joshlong_examples.Crm.Opening.{
  started, open_connection-started, deeper, catch_sql-from, open_answers, open_throws,
}
use joshlong_examples.Crm.Ends.{
  Allows, Ends, Ends-pure, Ends-bind, Ends-catch_sql, Ends-finally, Ends-raise_sql, finally_outcome,
  ends_rules, Ends-clean_up,
}

module _ (d : Driver) where
  Ends-customer_of : (null : Bool) (row : Row) → Ends d true null (customer_of {d = d} row)
  unfolding customer_of
  Ends-customer_of null row = search ends_rules depth 10

  Ends-read_customers :
      (null : Bool) (rows : ResultSet) → Ends d true null (read_customers {d = d} rows)
  unfolding read_customers
  Ends-read_customers null at_end = Ends-pure d true null none
  Ends-read_customers null next_throws = Ends-raise_sql d (Option Customer) null
  Ends-read_customers null (next_row row rest) =
      search (ends_rules, Ends-customer_of null row, Ends-read_customers null rest)

  Ends-query_with :
      (null : Bool) (customer_id : ℤ) (c : d.Connection)
      → Ends d true null (query_with {d = d} customer_id c)
  unfolding query_with keep_statement
  Ends-query_with null customer_id c = search (ends_rules, Ends-read_customers null) depth 12

  -- A block with any of the two exceptions.
  Ends-any : {A : Type 0} (m : Action (Frame d) A) → Ends d true true m
  unfolding Ends
  Ends-any {A} m s = either (m s).0
    where
      either : (r : Outcome A) → Allows true true r
      either (returned a) = tt
      either sql_exception = refl
      either null_pointer = refl

  widen : {A : Type 0} (m : Action (Frame d) A) → Ends d false false m → Ends d false true m
  unfolding Ends
  widen {A} m h s = either (m s).0 (h s)
    where
      either : (r : Outcome A) → Allows false false r → Allows false true r
      either (returned a) e = tt
      either sql_exception e = e
      either null_pointer e = refl

  Ends-method :
      {A : Type 0} (sql null : Bool) (m : Action (Frame d) A)
      → Ends d sql null m
      → Ends d sql null (method m)
  unfolding Ends method
  Ends-method sql null m h s = h (record s { connection = none; statement = none })

  Ends-started :
      {A : Type 0} (b : Bool) (f : d.Connection → Action (Frame d) A) (c : d.Connection)
      → ((e : d.Connection) → Ends d true false (f e))
      → Ends d true false (started b f (some c))
  Ends-started b f c h =
      Ends-bind d true false _ f
        (Ends-bind d true false (pure c) _ (Ends-pure d true false c) (λ e. search ends_rules)) h

  -- A method throws an SQLException at no driver.
  Ends-try :
      {A : Type 0} (m last : Action (Frame d) A)
      → Ends d false true last
      → Ends d false true (method (finally (catch_sql m last) clean_up))
  Ends-try m last h = Ends-method false true _ (
      Ends-finally d false true (catch_sql m last) clean_up
        (Ends-catch_sql d false true m last (Ends-any m) h) (widen clean_up (Ends-clean_up d)))

  Ends-roll_back : Ends d false true roll_back
  unfolding roll_back
  Ends-roll_back = search ends_rules depth 10

no_sql_exception : {A : Type 0} (r : Outcome A) → Allows false true r → r ≢ sql_exception
no_sql_exception (returned a) h e = cc
no_sql_exception sql_exception h e = cc
no_sql_exception null_pointer h e = cc

no_null_pointer : {A : Type 0} (r : Outcome A) → Allows false false r → r ≢ null_pointer
no_null_pointer (returned a) h e = cc
no_null_pointer sql_exception h e = cc
no_null_pointer null_pointer h e = cc

-- `saveCustomer` and `getCustomerById` throw no SQLException, whatever the driver does and in whatever state of the thread.
request-no_sql_exception :
    {d : Driver} (r : Request) (s : Frame d) → (request r s).0 ≢ sql_exception
unfolding save_customer get_customer_by_id Ends
request-no_sql_exception {d} (saves customer) s = no_sql_exception _ (
    Ends-try d (open_connection false >>= insert_with customer) (roll_back >> pure none)
      (Ends-bind d false true roll_back (λ _. pure none) (Ends-roll_back d)
        (λ _. Ends-pure d false true none))
      s)
request-no_sql_exception {d} (reads customer_id) s = no_sql_exception _ (
    Ends-try d (open_connection true >>= query_with customer_id) (pure none)
      (Ends-pure d false true none) s)

-- Where the thread has no connection: `getCustomerById` throws a NullPointerException if and only if the data
-- source throws when it is asked for a connection.
pub get_customer_by_id-null_pointer_iff :
    {d : Driver} (customer_id : ℤ) (s : Frame d)
    → s.thread_connection ≡ none
    → ((get_customer_by_id customer_id s).0 ≡ null_pointer)
      ↔ ((d.get_connection s.world).0 ≡ throws)
unfolding get_customer_by_id method catch_sql raise_null Ends ◌>>=◌
get_customer_by_id-null_pointer_iff {d} customer_id s idle = either (d.get_connection s.world) refl
  where
    own : Frame d
    own = record s { connection = none; statement = none }

    tried : Action (Frame d) (Option Customer)
    tried = catch_sql (open_connection true >>= query_with customer_id) (pure none)

    either :
        (p : Reply d.Connection × d.World)
        → d.get_connection s.world ≡ p
        → ((get_customer_by_id customer_id s).0 ≡ null_pointer)
          ↔ ((d.get_connection s.world).0 ≡ throws)
    either (answers c, w) got =
        let opened = record own {
          connection = some c;
          thread_connection = some c;
          depth = deeper s;
          world = w;
        } in
        let run =
          catch_sql-from (open_connection true >>= query_with customer_id)
            (started true (query_with customer_id) (some c)) (pure none) own opened
            (open_connection-started true (query_with customer_id) own
              (record own { thread_connection = some c; depth = deeper s; world = w }) (some c)
              (open_answers own c w idle got)) in
        let fine =
          Ends-catch_sql d false false (started true (query_with customer_id) (some c)) (pure none)
            (Ends-started d true (query_with customer_id) c (Ends-query_with d false customer_id))
            (Ends-pure d false false none) opened in
        let outcome : (get_customer_by_id customer_id s).0
            ≡ (catch_sql (started true (query_with customer_id) (some c)) (pure none) opened).0 =
          finally_outcome d tried clean_up own (Ends-clean_up d)
          ∙ ap {A = Outcome (Option Customer) × Frame d} (λ p. p.0) run in
        let answered : (d.get_connection s.world).0 ≡ answers c =
          ap {A = Reply d.Connection × d.World} (λ p. p.0) got in
        (
          λ e. absurd (no_null_pointer _ fine (sym outcome ∙ e)),
          λ e. let both : answers c ≡ throws = sym answered ∙ e in cc,
        )
    either (throws, w) got =
        let opened = record own { connection = none; depth = deeper s; world = w } in
        let run =
          catch_sql-from (open_connection true >>= query_with customer_id)
            (started true (query_with customer_id) none) (pure none) own opened
            (open_connection-started true (query_with customer_id) own
              (record own { depth = deeper s; world = w }) none (open_throws own w idle got)) in
        let outcome : (get_customer_by_id customer_id s).0 ≡ null_pointer =
          finally_outcome d tried clean_up own (Ends-clean_up d)
          ∙ ap {A = Outcome (Option Customer) × Frame d} (λ p. p.0) run in
        (λ _. ap {A = Reply d.Connection × d.World} (λ p. p.0) got, λ _. outcome)
