-- ===== src/Crm/Pool.antt =====
-- A data source that counts the connections it has given away.
use joshlong_examples.Common.{ℕ, suc, ◌-◌, ◌≡◌, Bool, Option, Text}
use joshlong_examples.Common.Int.{ℤ}
use joshlong_examples.Crm.Driver.{answers, throws, Driver}

-- The connections that are held, as a data source counts them: one more for each that it gives, one less
-- for each that is closed, and the same after any other call.
pub record Pool (d : Driver) : Type 0 where
  pub held : d.World → ℕ
  pub held-get_connection :
      (w : d.World)
      → held (d.get_connection w).1
        ≡ (elim (d.get_connection w).0 [ answers _ ↦ suc (held w) | throws ↦ held w ])
  pub held-close_connection :
      (c : d.Connection) (w : d.World) → held (d.close_connection c w).1 ≡ held w - 1
  pub held-set_auto_commit :
      (c : d.Connection) (b : Bool) (w : d.World) → held (d.set_auto_commit c b w).1 ≡ held w
  pub held-prepare_statement :
      (c : d.Connection) (t : Text) (w : d.World) → held (d.prepare_statement c t w).1 ≡ held w
  pub held-prepare_returning_keys :
      (c : d.Connection) (t : Text) (w : d.World) → held (d.prepare_returning_keys c t w).1 ≡ held w
  pub held-set_string :
      (p : d.Statement) (n : ℕ) (t : Option Text) (w : d.World)
      → held (d.set_string p n t w).1 ≡ held w
  pub held-set_long :
      (p : d.Statement) (n : ℕ) (z : ℤ) (w : d.World) → held (d.set_long p n z w).1 ≡ held w
  pub held-execute_update : (p : d.Statement) (w : d.World) → held (d.execute_update p w).1 ≡ held w
  pub held-get_generated_keys :
      (p : d.Statement) (w : d.World) → held (d.get_generated_keys p w).1 ≡ held w
  pub held-execute_query : (p : d.Statement) (w : d.World) → held (d.execute_query p w).1 ≡ held w
  pub held-close_keys : (p : d.Statement) (w : d.World) → held (d.close_keys p w).1 ≡ held w
  pub held-rollback : (c : d.Connection) (w : d.World) → held (d.rollback c w).1 ≡ held w
  pub held-close_statement :
      (p : d.Statement) (w : d.World) → held (d.close_statement p w).1 ≡ held w
