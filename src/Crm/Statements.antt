-- ===== src/Crm/Statements.antt =====
-- The statements of RawJdbcCustomerRepository.java between its opening and its closing a connection.
use joshlong_examples.Common.{Option, none}
use joshlong_examples.Common.Int.{ℤ}
use joshlong_examples.Crm.Driver.{Row, ResultSet, at_end, next_throws, next_row, Driver, Customer}
use joshlong_examples.Crm.Raw.{
  close_statement, customer_of, read_customers, query_with, roll_back, select_sql,
}
use joshlong_examples.Crm.Pool.{Pool}
use joshlong_examples.Crm.Keeps.{Depths, Keeps, keeps_rules, Keeps-pure, Keeps-raise_sql}

module _ {d : Driver} (pool : Pool d) where
  pub Keeps-customer_of : (P : Depths pool) (row : Row) → Keeps pool P (customer_of row)
  unfolding customer_of
  Keeps-customer_of P row = search keeps_rules

  pub Keeps-read_customers :
      (P : Depths pool) (rows : ResultSet) → Keeps pool P (read_customers rows)
  unfolding read_customers
  Keeps-read_customers P at_end = Keeps-pure pool P none
  Keeps-read_customers P next_throws = Keeps-raise_sql pool (Option Customer) P
  Keeps-read_customers P (next_row row rest) =
      search (keeps_rules, Keeps-customer_of P row, Keeps-read_customers P rest)

  pub Keeps-query_with :
      (P : Depths pool) (customer_id : ℤ) (c : d.Connection)
      → Keeps pool P (query_with customer_id c)
  unfolding query_with
  Keeps-query_with P customer_id c =
      search
        (
          keeps_rules,
          Keeps-read_customers P,
          pool.held-prepare_statement c select_sql,
          pool.held-set_long,
          pool.held-execute_query,
        )
        depth 12

  pub Keeps-roll_back : (P : Depths pool) → Keeps pool P roll_back
  unfolding roll_back
  Keeps-roll_back P = search (keeps_rules, pool.held-rollback)

  pub Keeps-close_statement : (P : Depths pool) → Keeps pool P close_statement
  unfolding close_statement
  Keeps-close_statement P = search (keeps_rules, pool.held-close_statement)
