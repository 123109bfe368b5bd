-- ===== src/Crm/Transactions.antt =====
-- What the driver of RawJdbcCustomerRepository.java does to transactions.
use joshlong_examples.Common.{ℕ, ◌+◌, ◌≡◌, Bool, true, false, Option, Text}
use joshlong_examples.Common.Int.{ℤ}
use joshlong_examples.Crm.Driver.{Reply, answers, throws, Driver}

-- The rows that are stored for good, those of the transaction that is open, and the mode of the connection.
pub record View : Type 0 where
  pub stored : ℕ
  pub uncommitted : ℕ
  pub auto_commit : Bool

abbrev pub IfAnswers : {A : Type 0} → Reply A → (A → Type 0) → Type 0
IfAnswers (answers a) P = P a
IfAnswers throws P = Unit

-- To turn auto-commit on commits what is open.
abbrev pub after_mode : Bool → View → View
after_mode true v = record {
  stored = v.stored + v.uncommitted;
  uncommitted = 0;
  auto_commit = true;
}
after_mode false v = record v { auto_commit = false }

-- A connection begins with nothing open; a statement that changes rows leaves them open where auto-commit is
-- off; to close a connection changes nothing where nothing is open. Where a call throws, and of a rollback,
-- nothing is said.
pub record Transactions (d : Driver) : Type 0 where
  pub view : d.World → View
  pub view-get_connection :
      (w : d.World)
      → ((view (d.get_connection w).1).stored ≡ (view w).stored)
        × ((view (d.get_connection w).1).uncommitted ≡ (view w).uncommitted)
  pub view-set_auto_commit :
      (c : d.Connection) (b : Bool) (w : d.World)
      → IfAnswers
          (d.set_auto_commit c b w).0
          (λ _. view (d.set_auto_commit c b w).1 ≡ after_mode b (view w))
  pub view-execute_update :
      (p : d.Statement) (w : d.World)
      → (view w).auto_commit ≡ false
      → IfAnswers (d.execute_update p w).0 (λ n. view (d.execute_update p w).1 ≡ record {
        stored = (view w).stored;
        uncommitted = (view w).uncommitted + n;
        auto_commit = false;
      })
  pub view-close_connection :
      (c : d.Connection) (w : d.World)
      → (view w).uncommitted ≡ 0
      → view (d.close_connection c w).1 ≡ view w
  pub view-prepare_statement :
      (c : d.Connection) (t : Text) (w : d.World) → view (d.prepare_statement c t w).1 ≡ view w
  pub view-prepare_returning_keys :
      (c : d.Connection) (t : Text) (w : d.World) → view (d.prepare_returning_keys c t w).1 ≡ view w
  pub view-set_string :
      (p : d.Statement) (n : ℕ) (t : Option Text) (w : d.World)
      → view (d.set_string p n t w).1 ≡ view w
  pub view-set_long :
      (p : d.Statement) (n : ℕ) (z : ℤ) (w : d.World) → view (d.set_long p n z w).1 ≡ view w
  pub view-get_generated_keys :
      (p : d.Statement) (w : d.World) → view (d.get_generated_keys p w).1 ≡ view w
  pub view-execute_query : (p : d.Statement) (w : d.World) → view (d.execute_query p w).1 ≡ view w
  pub view-close_keys : (p : d.Statement) (w : d.World) → view (d.close_keys p w).1 ≡ view w
  pub view-close_statement :
      (p : d.Statement) (w : d.World) → view (d.close_statement p w).1 ≡ view w
