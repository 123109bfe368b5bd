-- ===== src/Crm/Opening.antt =====
-- How RawJdbcCustomerRepository.java opens and closes the connection of a thread.
use joshlong_examples.Common.{◌≡◌, refl, ap, ◌∙◌, Bool, Option, none, some, if◌then◌else◌}
use joshlong_examples.Common.Int.{ℤ, pos, negsuc, ◌+ℤ◌, to_int}
use joshlong_examples.Crm.Exceptions.{
  Outcome, returned, sql_exception, null_pointer, Action, pure, gets, not_null, when_some, logged,
  catch_sql, modify, ◌>>=◌, ◌>>◌, finally,
}
use joshlong_examples.Crm.Driver.{Reply, answers, throws, Driver}
use joshlong_examples.Crm.Raw.{
  Frame, null_to_zero, is_zero, call, increment_depth, decrement_depth, fill_thread_connection,
  open_thread_connection, release, close_thread_connection, open_connection,
}

abbrev shallower : Option ℤ → ℤ
shallower n = to_int (null_to_zero n +ℤ negsuc 0)

module _ {d : Driver} where
  abbrev pub deeper : Frame d → Option ℤ
  deeper s = some (to_int (null_to_zero s.depth +ℤ pos 1))

  abbrev after_fill : Frame d → Outcome Unit × Frame d → Outcome (Option d.Connection) × Frame d
  after_fill s p =
      ◌>>=◌ {S = Frame d} (λ _. p) (λ _. increment_depth >> gets (λ t. t.thread_connection)) s

  pub open_inside :
      (s : Frame d) (c : d.Connection)
      → s.thread_connection ≡ some c
      → open_thread_connection s ≡ (returned (some c), record s { depth = deeper s })
  unfolding open_thread_connection fill_thread_connection increment_depth gets pure ◌>>=◌
  open_inside s c h =
      ap (λ o. after_fill s (fill_thread_connection o s)) h
      ∙ ap (λ o. (returned o, record s { depth = deeper s })) h

  pub open_answers :
      (s : Frame d) (c : d.Connection) (w : d.World)
      → s.thread_connection ≡ none
      → d.get_connection s.world ≡ (answers c, w)
      → open_thread_connection s
        ≡ (returned (some c), record s { thread_connection = some c; depth = deeper s; world = w })
  unfolding open_thread_connection fill_thread_connection increment_depth gets pure ◌>>=◌ call
      modify catch_sql
  open_answers s c w h e =
      ap (λ o. after_fill s (fill_thread_connection o s)) h
      ∙ ap
          (λ p. after_fill s (
            logged (call (λ _. p) >>= λ b. modify (λ t. record t { thread_connection = some b }))
              s))
          e

  pub open_throws :
      (s : Frame d) (w : d.World)
      → s.thread_connection ≡ none
      → d.get_connection s.world ≡ (throws, w)
      → open_thread_connection s ≡ (returned none, record s { depth = deeper s; world = w })
  unfolding open_thread_connection fill_thread_connection increment_depth gets pure ◌>>=◌ call
      modify catch_sql
  open_throws s w h e =
      ap (λ o. after_fill s (fill_thread_connection o s)) h
      ∙ ap
          (λ p. after_fill s (
            logged (call (λ _. p) >>= λ b. modify (λ t. record t { thread_connection = some b }))
              s))
          e
      ∙ ap (λ o. (returned o, record s { depth = deeper s; world = w })) h

  -- What follows on `openThreadConnection`, where it has returned o.
  abbrev pub started :
      {A : Type 0}
      → Bool
      → (d.Connection → Action (Frame d) A)
      → Option d.Connection
      → Action (Frame d) A
  started b f o = (not_null o >>= λ c. call (d.set_auto_commit c b) >> pure c) >>= f

  pub open_connection-started :
      {A : Type 0} (b : Bool) (f : d.Connection → Action (Frame d) A) (s t : Frame d)
      (o : Option d.Connection)
      → open_thread_connection s ≡ (returned o, t)
      → (open_connection b >>= f) s ≡ started b f o (record t { connection = o })
  unfolding open_connection ◌>>=◌ modify
  open_connection-started {A} b f s t o e =
      ap
        (λ p.
          ◌>>=◌ {S = Frame d}
            (◌>>=◌ {S = Frame d} (λ _. p)
              (λ opened.
                modify (λ u. record u { connection = opened })
                >> (not_null opened >>= λ c. call (d.set_auto_commit c b) >> pure c)))
            f s)
        e

  pub catch_sql-from :
      {A : Type 0} (m m' last : Action (Frame d) A) (s t : Frame d)
      → m s ≡ m' t
      → catch_sql m last s ≡ catch_sql m' last t
  unfolding catch_sql
  catch_sql-from {A} m m' last s t e = ap (λ p. catch_sql {S = Frame d} {A = A} (λ _. p) last s) e

  -- The state after `finally`, whatever either block does.
  pub finally_state :
      {A : Type 0} (m : Action (Frame d) A) (last : Action (Frame d) Unit) (s : Frame d)
      → (finally m last s).1 ≡ (last (m s).1).1
  unfolding finally
  finally_state {A} m last s = either (m s).0 (last (m s).1)
    where
      either :
          (r : Outcome A) (p : Outcome Unit × Frame d)
          → (elim p.0 as (λ _. Outcome A × Frame d) [
            | returned _ ↦ (r, p.1)
            | sql_exception ↦ (sql_exception, p.1)
            | null_pointer ↦ (null_pointer, p.1)
          ]).1
            ≡ p.1
      either r (returned u, t) = refl
      either r (sql_exception, t) = refl
      either r (null_pointer, t) = refl

  abbrev closing : Frame d → Option ℤ → Option d.Connection → Frame d
  closing s n o =
      ((if is_zero (shallower n) then when_some o release else pure tt)
        (record s { depth = some (shallower n) })).1

  pub close_inside :
      (s : Frame d)
      → s.depth ≡ some (pos 2)
      → (close_thread_connection s).1 ≡ record s { depth = some (pos 1) }
  unfolding close_thread_connection decrement_depth gets pure ◌>>=◌ to_int ◌+ℤ◌
  close_inside s e = ap (λ n. closing s n s.thread_connection) e

  pub close_without :
      (s : Frame d)
      → s.depth ≡ some (pos 1)
      → s.thread_connection ≡ none
      → (close_thread_connection s).1 ≡ record s { depth = some (pos 0) }
  unfolding close_thread_connection decrement_depth gets pure ◌>>=◌ to_int ◌+ℤ◌
  close_without s e h =
      ap (λ n. closing s n s.thread_connection) e ∙ ap (λ o. closing s (some (pos 1)) o) h

  pub close_with :
      (s : Frame d) (c : d.Connection)
      → s.depth ≡ some (pos 1)
      → s.thread_connection ≡ some c
      → (close_thread_connection s).1 ≡ record s {
        thread_connection = none;
        depth = some (pos 0);
        world = (d.close_connection c s.world).1;
      }
  unfolding close_thread_connection decrement_depth gets pure ◌>>=◌ to_int ◌+ℤ◌ release modify call
      catch_sql finally
  close_with s c e h =
      ap (λ n. closing s n s.thread_connection) e
      ∙ ap (λ o. closing s (some (pos 1)) o) h
      ∙ either (d.close_connection c s.world)
    where
      either :
          (p : Reply Unit × d.World)
          → (finally
              (logged (call (λ _. p)))
              (modify (λ t. record t { thread_connection = none }))
              (record s { depth = some (pos 0) })).1
            ≡ record s { thread_connection = none; depth = some (pos 0); world = p.1 }
      either (answers u, w) = refl
      either (throws, w) = refl
