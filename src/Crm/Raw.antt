-- ===== src/Crm/Raw.antt =====
-- RawJdbcCustomerRepository.java, with what it keeps for the calling thread.
--
-- The log is left out, as are the purchases of a customer, which none of these methods touches.
use joshlong_examples.Common.{
  List, [], ◌∷◌, Bool, true, false, Option, none, some, ◌==◌, ltb, if◌then◌else◌, Text, codes,
}
use joshlong_examples.Common.Int.{ℤ, pos, negsuc, ◌+ℤ◌, to_int}
use joshlong_examples.Crm.Exceptions.{
  returned, sql_exception, Action, pure, gets, raise_sql, not_null, when_some, logged, catch_sql,
  modify, ◌>>=◌, ◌>>◌, finally,
}
use joshlong_examples.Crm.Driver.{
  Reply, answers, throws, Row, ResultSet, at_end, next_throws, next_row, Driver, Customer,
}

-- The variables of a method, the two thread locals, and the world.
pub record Frame (d : Driver) : Type 0 where
  pub connection : Option d.Connection
  pub statement : Option d.Statement
  pub thread_connection : Option d.Connection
  pub depth : Option ℤ
  pub world : d.World

abbrev pub insert_sql : Text
insert_sql = codes " INSERT INTO customer( first_name, last_name) VALUES ( ? , ? )"

abbrev pub select_sql : Text
select_sql = codes "select * from customer where id = ?"

abbrev pub null_to_zero : Option ℤ → ℤ
null_to_zero none = pos 0
null_to_zero (some n) = n

abbrev pub is_zero : ℤ → Bool
is_zero (pos n) = n == 0
is_zero (negsuc n) = false

module _ {d : Driver} where
  unfoldable pub call : {A : Type 0} → (d.World → Reply A × d.World) → Action (Frame d) A
  call f s =
      let (r, w) = f s.world in
      elim r [
        | answers a ↦ (returned a, record s { world = w })
        | throws ↦ (sql_exception, record s { world = w })
      ]

  abbrev pub reply : {A : Type 0} → Reply A → Action (Frame d) A
  reply (answers a) = pure a
  reply throws = raise_sql

  -- A method has variables of its own, which are null at first.
  unfoldable pub method : {A : Type 0} → Action (Frame d) A → Action (Frame d) A
  method body s =
      let (r, s') = body (record s { connection = none; statement = none }) in
      (r, record s' { connection = s.connection; statement = s.statement })

  unfoldable pub increment_depth : Action (Frame d) Unit
  increment_depth s =
      (returned tt, record s { depth = some (to_int (null_to_zero s.depth +ℤ pos 1)) })

  unfoldable pub decrement_depth : Action (Frame d) ℤ
  decrement_depth s =
      let n = to_int (null_to_zero s.depth +ℤ negsuc 0) in (returned n, record s { depth = some n })

  -- The connection of the thread, where it has none yet.
  unfoldable pub fill_thread_connection : Option d.Connection → Action (Frame d) Unit
  unfolding call
  fill_thread_connection none =
      logged (call d.get_connection >>= λ c. modify (λ s. record s { thread_connection = some c }))
  fill_thread_connection (some c) = pure tt

  unfoldable pub open_thread_connection : Action (Frame d) (Option d.Connection)
  unfolding fill_thread_connection increment_depth
  open_thread_connection = do
    present ← gets (λ s. s.thread_connection)
    fill_thread_connection present
    increment_depth
    gets (λ s. s.thread_connection)

  unfoldable pub release : d.Connection → Action (Frame d) Unit
  unfolding call
  release c =
      finally (logged (call (d.close_connection c)))
        (modify (λ s. record s { thread_connection = none }))

  unfoldable pub close_thread_connection : Action (Frame d) Unit
  unfolding decrement_depth release
  close_thread_connection = do
    connection ← gets (λ s. s.thread_connection)
    n ← decrement_depth
    if is_zero n then when_some connection release else pure tt

  unfoldable pub close_statement : Action (Frame d) Unit
  unfolding call
  close_statement = do
    statement ← gets (λ s. s.statement)
    when_some statement (λ p. logged (call (d.close_statement p)))

  -- The block `finally` of both methods.
  unfoldable pub clean_up : Action (Frame d) Unit
  unfolding close_thread_connection close_statement
  clean_up = close_thread_connection >> close_statement

  unfoldable pub customer_of : Row → Action (Frame d) Customer
  customer_of row = do
    first ← reply (row.get_string (codes "first_name"))
    last ← reply (row.get_string (codes "last_name"))
    number ← reply (row.get_long (codes "id"))
    pure (record { id = some number; first_name = first; last_name = last })

  -- The loop over the result set, and the first customer of the collection.
  unfoldable pub read_customers : ResultSet → Action (Frame d) (Option Customer)
  unfolding customer_of
  read_customers at_end = pure none
  read_customers next_throws = raise_sql
  read_customers (next_row row rest) =
      customer_of row >>= λ c. read_customers rest >>= λ others. pure (some c)

  -- The variables `connection` and `preparedStatement` are set where the calls have answered.
  unfoldable pub open_connection : Bool → Action (Frame d) d.Connection
  unfolding open_thread_connection
  open_connection auto_commit = do
    opened ← open_thread_connection
    modify (λ s. record s { connection = opened })
    connection ← not_null opened
    call (d.set_auto_commit connection auto_commit)
    pure connection

  unfoldable pub keep_statement : d.Statement → Action (Frame d) Unit
  keep_statement p = modify (λ s. record s { statement = some p })

  -- The query, where the connection is there.
  unfoldable pub query_with : ℤ → d.Connection → Action (Frame d) (Option Customer)
  unfolding keep_statement read_customers
  query_with customer_id connection = do
    p ← call (d.prepare_statement connection select_sql)
    keep_statement p
    call (d.set_long p 1 customer_id)
    rows ← call (d.execute_query p)
    read_customers rows

  unfoldable pub get_customer_by_id : ℤ → Action (Frame d) (Option Customer)
  unfolding open_connection query_with clean_up
  get_customer_by_id customer_id =
      method
        (finally (catch_sql (open_connection true >>= query_with customer_id) (pure none)) clean_up)

  unfoldable pub by_first_key : ResultSet → Action (Frame d) (Option Customer)
  unfolding get_customer_by_id
  by_first_key at_end = pure none
  by_first_key next_throws = raise_sql
  by_first_key (next_row row rest) = reply (row.get_long_at 1) >>= get_customer_by_id

  unfoldable pub read_keys : d.Statement → Action (Frame d) (Option Customer)
  unfolding by_first_key
  read_keys p = do
    keys ← call (d.get_generated_keys p)
    key_rows ← not_null keys
    customer ← by_first_key key_rows
    call (d.close_keys p)
    pure customer

  -- The insertion, where the connection is there.
  unfoldable pub insert_with : Customer → d.Connection → Action (Frame d) (Option Customer)
  unfolding keep_statement read_keys
  insert_with customer connection = do
    p ← call (d.prepare_returning_keys connection insert_sql)
    keep_statement p
    call (d.set_string p 1 customer.first_name)
    call (d.set_string p 2 customer.last_name)
    rows_updated ← call (d.execute_update p)
    if ltb 0 rows_updated then read_keys p else pure none

  unfoldable pub roll_back : Action (Frame d) Unit
  unfolding call
  roll_back = do
    connection ← gets (λ s. s.connection)
    when_some connection (λ c. logged (call (d.rollback c)))

  unfoldable pub save_customer : Customer → Action (Frame d) (Option Customer)
  unfolding open_connection insert_with roll_back clean_up
  save_customer customer = method (
      finally (catch_sql (open_connection false >>= insert_with customer) (roll_back >> pure none))
        clean_up)

-- Calls of the interface CustomerRepository.java, one after another in a thread.
pub data Request : Type 0 where
  saves : Customer → Request
  reads : ℤ → Request

abbrev pub request : {d : Driver} → Request → Action (Frame d) (Option Customer)
request (saves customer) = save_customer customer
request (reads customer_id) = get_customer_by_id customer_id

abbrev pub requests : {d : Driver} → List Request → Frame d → Frame d
requests [] s = s
requests (r ∷ rs) s = requests rs (request r s).1
