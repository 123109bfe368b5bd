-- ===== src/Crm/Tests.antt =====
-- The repository over a small database in memory.
use joshlong_examples.Common.{
  ◌<◌, ap, ◌+◌, ℕ, suc, ◌-◌, ◌≡◌, ◌↔◌, refl, arith, Bool, true, false, Option, none, some, List, [],
  ◌∷◌, ◌++◌, ◌==◌, if◌then◌else◌, length, Text, codes, text_eq,
}
use joshlong_examples.Common.Int.{ℤ, pos, ◌+ℤ◌, to_int}
use joshlong_examples.Crm.Exceptions.{
  returned, null_pointer, pure, gets, modify, catch_sql, finally, ◌>>=◌,
}
use joshlong_examples.Crm.Driver.{
  Reply, answers, throws, Row, ResultSet, at_end, next_row, Driver, Customer,
}
use joshlong_examples.Crm.Raw.{
  Frame, call, method, increment_depth, decrement_depth, fill_thread_connection,
  open_thread_connection, release, close_thread_connection, close_statement, clean_up, customer_of,
  read_customers, open_connection, keep_statement, query_with, get_customer_by_id, by_first_key,
  read_keys, insert_with, roll_back, save_customer, Request, saves, reads, request, requests,
}
use joshlong_examples.Crm.Pool.{Pool}
use joshlong_examples.Crm.Balance.{IsIdle, requests-IsIdle}
use joshlong_examples.Crm.Transactions.{View, after_mode, Transactions}
use joshlong_examples.Crm.Commits.{save_customer-Grown}
use joshlong_examples.Crm.Errors.{get_customer_by_id-null_pointer_iff}

-- The table, with the parameters of the statement; `is_down` is a data source that has no connections.
record Memory : Type 0 where
  is_down : Bool
  held : ℕ
  rows : List Customer
  first : Option Text
  last : Option Text
  key : ℤ
  stored : ℕ
  uncommitted : ℕ
  auto_commit : Bool

abbrev same_id : ℤ → Option ℤ → Bool
same_id (pos n) (some (pos m)) = n == m
same_id z o = false

abbrev row_of : Customer → Row
row_of c = record {
  get_string =
      λ name. answers (if text_eq name (codes "first_name") then c.first_name else c.last_name);
  get_long = λ name. elim c.id [ none ↦ throws | some n ↦ answers n ];
  get_int = λ name. elim c.id [ none ↦ throws | some n ↦ answers n ];
  get_long_at = λ n. elim c.id [ none ↦ throws | some n ↦ answers n ];
}

abbrev rows_with : ℤ → List Customer → ResultSet
rows_with key [] = at_end
rows_with key (c ∷ cs) =
    if same_id key c.id then next_row (row_of c) (rows_with key cs) else rows_with key cs

abbrev added : Memory → Customer
added w = record { id = some (pos (suc (length w.rows))); first_name = w.first; last_name = w.last }

abbrev last_row : List Customer → ResultSet
last_row [] = at_end
last_row (c ∷ []) = next_row (row_of c) at_end
last_row (c ∷ e ∷ cs) = last_row (e ∷ cs)

abbrev connect : Memory → Reply Unit × Memory
connect w = (
  if w.is_down then throws else answers tt,
  record w { held = if w.is_down then w.held else suc w.held },
)

abbrev in_mode : Bool → Memory → Memory
in_mode true w = record w { stored = w.stored + w.uncommitted; uncommitted = 0; auto_commit = true }
in_mode false w = record w { auto_commit = false }

abbrev add_row : Memory → Memory
add_row w = record w {
  rows = w.rows ++ added w ∷ [];
  stored = if w.auto_commit then w.stored + 1 else w.stored;
  uncommitted = if w.auto_commit then w.uncommitted else w.uncommitted + 1;
}

abbrev memory : Driver
memory = record {
  World = Memory;
  Connection = Unit {0};
  Statement = Unit {0};
  get_connection = connect;
  set_auto_commit = λ c b w. (answers tt, in_mode b w);
  prepare_statement = λ c t w. (answers tt, w);
  prepare_returning_keys = λ c t w. (answers tt, w);
  set_string =
      λ p n t w. (answers tt, if n == 1 then record w { first = t } else record w { last = t });
  set_long = λ p n z w. (answers tt, record w { key = z });
  execute_update = λ p w. (answers 1, add_row w);
  get_generated_keys = λ p w. (answers (some (last_row w.rows)), w);
  execute_query = λ p w. (answers (rows_with w.key w.rows), w);
  close_keys = λ p w. (answers tt, w);
  rollback = λ c w. (answers tt, w);
  close_statement = λ p w. (answers tt, w);
  close_connection = λ c w. (answers tt, record w { held = w.held - 1 });
}

held-connect :
    (w : Memory)
    → (connect w).1.held
      ≡ (elim (connect w).0 as (λ _. ℕ) [ answers _ ↦ suc w.held | throws ↦ w.held ])
held-connect w = ground arith

held-set_string :
    (n : ℕ) (t : Option Text) (w : Memory)
    → (if n == 1 then record w { first = t } else record w { last = t }).held ≡ w.held
held-set_string n t w = ground arith

held-in_mode : (b : Bool) (w : Memory) → (in_mode b w).held ≡ w.held
held-in_mode true w = refl
held-in_mode false w = refl

abbrev view_of : Memory → View
view_of w = record { stored = w.stored; uncommitted = w.uncommitted; auto_commit = w.auto_commit }

view_of-in_mode : (b : Bool) (w : Memory) → view_of (in_mode b w) ≡ after_mode b (view_of w)
view_of-in_mode true w = refl
view_of-in_mode false w = refl

view_of-add_row :
    (w : Memory)
    → w.auto_commit ≡ false
    → view_of (add_row w)
      ≡ record { stored = w.stored; uncommitted = w.uncommitted + 1; auto_commit = false }
view_of-add_row w e =
    ap {B = View}
      (λ b. record {
        stored = if b then w.stored + 1 else w.stored;
        uncommitted = if b then w.uncommitted else w.uncommitted + 1;
        auto_commit = b;
      })
      e

view_of-set_string :
    (n : ℕ) (t : Option Text) (w : Memory)
    → view_of (if n == 1 then record w { first = t } else record w { last = t }) ≡ view_of w
view_of-set_string n t w = ground arith

abbrev memory_pool : Pool memory
memory_pool = record {
  held = λ w. w.held;
  held-get_connection = held-connect;
  held-close_connection = λ c w. refl;
  held-set_auto_commit = λ c b w. held-in_mode b w;
  held-prepare_statement = λ c t w. refl;
  held-prepare_returning_keys = λ c t w. refl;
  held-set_string = λ p n t w. held-set_string n t w;
  held-set_long = λ p n z w. refl;
  held-execute_update = λ p w. refl;
  held-get_generated_keys = λ p w. refl;
  held-execute_query = λ p w. refl;
  held-close_keys = λ p w. refl;
  held-rollback = λ c w. refl;
  held-close_statement = λ p w. refl;
}

abbrev memory_transactions : Transactions memory
memory_transactions = record {
  view = view_of;
  view-get_connection = λ w. (refl, refl);
  view-set_auto_commit = λ c b w. view_of-in_mode b w;
  view-execute_update = λ p w e. view_of-add_row w e;
  view-close_connection = λ c w e. refl;
  view-prepare_statement = λ c t w. refl;
  view-prepare_returning_keys = λ c t w. refl;
  view-set_string = λ p n t w. view_of-set_string n t w;
  view-set_long = λ p n z w. refl;
  view-get_generated_keys = λ p w. refl;
  view-execute_query = λ p w. refl;
  view-close_keys = λ p w. refl;
  view-close_statement = λ p w. refl;
}

abbrev fresh : Bool → Frame memory
fresh is_down = record {
  connection = none;
  statement = none;
  thread_connection = none;
  depth = none;
  world = record {
    is_down = is_down;
    held = 3;
    rows = [];
    first = none;
    last = none;
    key = pos 0;
    stored = 0;
    uncommitted = 0;
    auto_commit = true;
  };
}

abbrev ada : Customer
ada = record { id = none; first_name = some (codes "Ada"); last_name = some (codes "Lovelace") }

abbrev ada_saved : Customer
ada_saved = record {
  id = some (pos 1);
  first_name = some (codes "Ada");
  last_name = some (codes "Lovelace");
}

save_ada : (request {d = memory} (saves ada) (fresh false)).0 ≡ returned (some ada_saved)
unfolding save_customer insert_with read_keys by_first_key get_customer_by_id query_with
    read_customers customer_of clean_up close_statement close_thread_connection open_connection
    open_thread_connection fill_thread_connection release increment_depth decrement_depth
    keep_statement roll_back call method pure gets modify catch_sql finally ◌>>=◌ to_int ◌+ℤ◌
    text_eq
save_ada = refl

-- Two customers, one who is missing, and what is held afterwards.
abbrev calls : List Request
calls = saves ada ∷ reads (pos 1) ∷ reads (pos 7) ∷ saves ada ∷ []

requests-IsIdle_example :
    IsIdle (requests calls (fresh false)) × ((requests calls (fresh false)).world.held ≡ 3)
requests-IsIdle_example = requests-IsIdle memory_pool calls (fresh false) (refl, refl)

get_customer_by_id-null_pointer_iff_example :
    ((get_customer_by_id (pos 1) (fresh true)).0 ≡ null_pointer)
    ↔ ((connect (fresh true).world).0 ≡ throws)
get_customer_by_id-null_pointer_iff_example =
    get_customer_by_id-null_pointer_iff (pos 1) (fresh true) refl

save_customer-Grown_example :
    let after = view_of (save_customer ada (fresh false)).1.world in
    (after.uncommitted ≡ 0) × (0 < after.stored)
save_customer-Grown_example =
    save_customer-Grown memory_transactions ada ada_saved (fresh false) refl save_ada
