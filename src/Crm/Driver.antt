-- ===== src/Crm/Driver.antt =====
-- What the repositories of customers call in java.sql. The driver and the database behind it are
-- parameters: each call changes a world and answers, or throws an SQLException.
use joshlong_examples.Common.{ℕ, Bool, Option, Text}
use joshlong_examples.Common.Int.{ℤ}

pub data Reply (A : Type 0) : Type 0 where
  answers : A → Reply A
  throws : Reply A

-- A row, as the columns answer by name and by number.
pub record Row : Type 0 where
  pub get_string : Text → Reply (Option Text)
  pub get_long : Text → Reply ℤ
  pub get_int : Text → Reply ℤ
  pub get_long_at : ℕ → Reply ℤ

-- A result set is finite, and what its `next` will answer is settled when the query has run.
pub data ResultSet : Type 0 where
  at_end : ResultSet
  next_throws : ResultSet
  next_row : Row → ResultSet → ResultSet

pub record Driver : Type 1 where
  pub World : Type 0
  pub Connection : Type 0
  pub Statement : Type 0
  pub get_connection : World → Reply Connection × World
  pub set_auto_commit : Connection → Bool → World → Reply Unit × World
  pub prepare_statement : Connection → Text → World → Reply Statement × World
  pub prepare_returning_keys : Connection → Text → World → Reply Statement × World
  pub set_string : Statement → ℕ → Option Text → World → Reply Unit × World
  pub set_long : Statement → ℕ → ℤ → World → Reply Unit × World
  pub execute_update : Statement → World → Reply ℕ × World
  pub get_generated_keys : Statement → World → Reply (Option ResultSet) × World
  pub execute_query : Statement → World → Reply ResultSet × World
  pub close_keys : Statement → World → Reply Unit × World  -- of the set of generated keys
  pub rollback : Connection → World → Reply Unit × World
  pub close_statement : Statement → World → Reply Unit × World
  pub close_connection : Connection → World → Reply Unit × World

-- Customer.java, where `none` is null.
pub record Customer : Type 0 where
  pub id : Option ℤ
  pub first_name : Option Text
  pub last_name : Option Text
