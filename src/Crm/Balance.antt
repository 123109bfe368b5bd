-- ===== src/Crm/Balance.antt =====
-- Each method of RawJdbcCustomerRepository.java gives back the connection that it opened.
use joshlong_examples.Common.{
  List, [], ◌∷◌, ℕ, suc, ◌-◌, ◌≡◌, refl, sym, subst, ap, ◌∙◌, ◌⊎◌, inl, inr, arith, Bool, true,
  false, none, some,
}
use joshlong_examples.Common.Int.{ℤ, pos, ◌+ℤ◌, to_int}
use joshlong_examples.Crm.Exceptions.{
  Outcome, Action, pure, raise_null, catch_sql, ◌>>=◌, ◌>>◌, finally,
}
use joshlong_examples.Crm.Driver.{Reply, answers, throws, Driver, Customer}
use joshlong_examples.Crm.Raw.{
  Frame, null_to_zero, method, clean_up, open_connection, query_with, get_customer_by_id,
  insert_with, roll_back, save_customer, Request, saves, reads, request, requests,
}
use joshlong_examples.Crm.Pool.{Pool}
use joshlong_examples.Crm.Keeps.{Keeps, Keeps-pure, Keeps-bind, Keeps-catch_sql}
use joshlong_examples.Crm.Statements.{Keeps-query_with, Keeps-roll_back}
use joshlong_examples.Crm.Opening.{
  deeper, open_answers, open_throws, started, open_connection-started, catch_sql-from,
  finally_state, close_without, close_with,
}
use joshlong_examples.Crm.Nested.{Inside, Keeps-started, Keeps-insert_with, clean_up_lem}

-- The thread has no connection, and is in no method.
abbrev pub IsIdle : {d : Driver} → Frame d → Type 0
IsIdle s = (s.thread_connection ≡ none) × (null_to_zero s.depth ≡ pos 0)

module _ {d : Driver} (pool : Pool d) where
  -- What holds at the end of the outermost `try`.
  Tried : Frame d → Frame d → Type 0
  Tried s t =
      (t.depth ≡ some (pos 1))
      × (((t.thread_connection ≡ none) × (pool.held t.world ≡ pool.held s.world))
          ⊎ (((c : d.Connection) × (t.thread_connection ≡ some c))
              × (pool.held t.world ≡ suc (pool.held s.world))))

  Tried-lem :
      {A : Type 0} (b : Bool) (f : d.Connection → Action (Frame d) A) (last : Action (Frame d) A)
      (s : Frame d)
      → ((c : d.Connection) → Keeps pool (Inside pool 1) (f c))
      → Keeps pool (Inside pool 1) last
      → IsIdle s
      → Tried s (catch_sql (open_connection b >>= f) last s).1
  unfolding Keeps to_int ◌+ℤ◌ Tried catch_sql raise_null ◌>>=◌
  Tried-lem {A} b f last s h k (idle, e) =
      either (d.get_connection s.world) refl (pool.held-get_connection s.world)
    where
      either :
          (p : Reply d.Connection × d.World)
          → d.get_connection s.world ≡ p
          → pool.held (d.get_connection s.world).1 ≡ (elim (d.get_connection s.world).0 [
            | answers _ ↦ suc (pool.held s.world)
            | throws ↦ pool.held s.world
          ])
          → Tried s (catch_sql (open_connection b >>= f) last s).1
      either (answers c, w) got count =
          let opened = record s {
            connection = some c;
            thread_connection = some c;
            depth = deeper s;
            world = w;
          } in
          let one : opened.depth ≡ some (pos 1) = ap (λ z. some (to_int (z +ℤ pos 1))) e in
          let run = catch_sql-from (open_connection b >>= f) (started b f (some c)) last s opened (
            open_connection-started b f s
              (record s { thread_connection = some c; depth = deeper s; world = w }) (some c)
              (open_answers s c w idle got)) in
          let more : pool.held w ≡ suc (pool.held s.world) =
            ap (λ (q : Reply d.Connection × d.World). pool.held q.1) (sym got)
            ∙ count
            ∙ ap {A = Reply d.Connection × d.World}
                (λ q. elim q.0 as (λ _. ℕ) [
                  | answers _ ↦ suc (pool.held s.world)
                  | throws ↦ pool.held s.world
                ])
                got in
          let same =
            Keeps-catch_sql pool (Inside pool 1) (started b f (some c)) last
              (Keeps-started pool (Inside pool 1) b f (some c) h) k opened ((c, refl), one) in
          subst (λ (q : Outcome A × Frame d). Tried s q.1) (sym run)
            (same.1 ∙ one, inr ((c, same.0), same.2 ∙ more))
      either (throws, w) got count =
          let opened = record s { connection = none; depth = deeper s; world = w } in
          let one : opened.depth ≡ some (pos 1) = ap (λ z. some (to_int (z +ℤ pos 1))) e in
          let run = catch_sql-from (open_connection b >>= f) (started b f none) last s opened (
            open_connection-started b f s (record s { depth = deeper s; world = w }) none
              (open_throws s w idle got)) in
          let level : pool.held w ≡ pool.held s.world =
            ap (λ (q : Reply d.Connection × d.World). pool.held q.1) (sym got)
            ∙ count
            ∙ ap {A = Reply d.Connection × d.World}
                (λ q. elim q.0 as (λ _. ℕ) [
                  | answers _ ↦ suc (pool.held s.world)
                  | throws ↦ pool.held s.world
                ])
                got in
          subst (λ (q : Outcome A × Frame d). Tried s q.1) (sym run) (one, inl (idle, level))

  Balanced : Frame d → Frame d → Type 0
  Balanced s t =
      (t.thread_connection ≡ none)
      × (t.depth ≡ some (pos 0))
      × (pool.held t.world ≡ pool.held s.world)

  clean_up-Balanced : (s t : Frame d) → Tried s t → Balanced s (clean_up t).1
  unfolding Tried Balanced
  clean_up-Balanced s t (one, inl (away, level)) =
      let cleaned = clean_up_lem pool t _ (close_without t one away) in
      (cleaned.0 ∙ away, cleaned.1, cleaned.2 ∙ level)
  clean_up-Balanced s t (one, inr ((c, at), more)) =
      let cleaned = clean_up_lem pool t _ (close_with t c one at) in
      let less : suc (pool.held s.world) - 1 ≡ pool.held s.world = omega arith in
      (
        cleaned.0,
        cleaned.1,
        cleaned.2 ∙ pool.held-close_connection c t.world ∙ ap (λ (n : ℕ). n - 1) more ∙ less,
      )

  balanced :
      {A : Type 0} (b : Bool) (f : d.Connection → Action (Frame d) A) (last : Action (Frame d) A)
      (s : Frame d)
      → ((c : d.Connection) → Keeps pool (Inside pool 1) (f c))
      → Keeps pool (Inside pool 1) last
      → IsIdle s
      → Balanced s (method (finally (catch_sql (open_connection b >>= f) last) clean_up) s).1
  unfolding method Balanced
  balanced b f last s h k idle =
      let own = record s { connection = none; statement = none } in
      subst (Balanced s)
        (sym (finally_state (catch_sql (open_connection b >>= f) last) clean_up own))
        (clean_up-Balanced own _ (Tried-lem b f last own h k idle))

get_customer_by_id-Balanced :
    {d : Driver} (pool : Pool d) (customer_id : ℤ) (s : Frame d)
    → IsIdle s
    → Balanced pool s (get_customer_by_id customer_id s).1
unfolding get_customer_by_id
get_customer_by_id-Balanced pool customer_id s idle =
    balanced pool true (query_with customer_id) (pure none) s
      (Keeps-query_with pool (Inside pool 1) customer_id) (Keeps-pure pool (Inside pool 1) none)
      idle

save_customer-Balanced :
    {d : Driver} (pool : Pool d) (customer : Customer) (s : Frame d)
    → IsIdle s
    → Balanced pool s (save_customer customer s).1
unfolding save_customer
save_customer-Balanced pool customer s idle =
    balanced pool false (insert_with customer) (roll_back >> pure none) s
      (Keeps-insert_with pool customer)
      (Keeps-bind pool (Inside pool 1) roll_back (λ _. pure none)
        (Keeps-roll_back pool (Inside pool 1)) (λ _. Keeps-pure pool (Inside pool 1) none))
      idle

request-Balanced :
    {d : Driver} (pool : Pool d) (r : Request) (s : Frame d)
    → IsIdle s
    → Balanced pool s (request r s).1
request-Balanced pool (saves customer) s idle = save_customer-Balanced pool customer s idle
request-Balanced pool (reads customer_id) s idle =
    get_customer_by_id-Balanced pool customer_id s idle

-- Of a data source that counts one connection more for each that it gives, one less for each
-- that is closed, and no other call: after any calls of `saveCustomer` and `getCustomerById`
-- in a thread that is in neither at first, whatever the driver answers or throws on the way,
-- the thread has no connection, its depth is zero or not set, and as many connections are held
-- as before.
pub requests-IsIdle :
    {d : Driver} (pool : Pool d) (rs : List Request) (s : Frame d)
    → IsIdle s
    → IsIdle (requests rs s) × (pool.held (requests rs s).world ≡ pool.held s.world)
unfolding Balanced
requests-IsIdle pool [] s idle = (idle, refl)
requests-IsIdle pool (r ∷ rs) s idle =
    let h = request-Balanced pool r s idle in
    let k = requests-IsIdle pool rs (request r s).1 (h.0, ap null_to_zero h.1) in (k.0, k.1 ∙ h.2)
