-- ===== src/Crm/Ends.antt =====
-- Rules on what a block of RawJdbcCustomerRepository.java can throw, and its block `finally`, which throws nothing.
use joshlong_examples.Common.{◌≡◌, refl, Bool, true, false, Option, none, some, if◌then◌else◌}
use joshlong_examples.Crm.Exceptions.{
  Outcome, returned, sql_exception, null_pointer, Action, pure, gets, raise_null, raise_sql,
  not_null, when_some, logged, catch_sql, modify, ◌>>=◌, finally,
}
use joshlong_examples.Crm.Driver.{Reply, answers, throws, Driver}
use joshlong_examples.Crm.Raw.{
  Frame, call, reply, decrement_depth, release, close_thread_connection, close_statement, clean_up,
}

-- What a block may throw: an SQLException where the first is `true`, a NullPointerException where the second is.
abbrev pub Allows : {A : Type 0} → Bool → Bool → Outcome A → Type 0
Allows sql null (returned a) = Unit
Allows sql null sql_exception = sql ≡ true
Allows sql null null_pointer = null ≡ true

unfoldable pub Ends : {A : Type 0} (d : Driver) → Bool → Bool → Action (Frame d) A → Type 0
Ends d sql null m = (s : Frame d) → Allows sql null (m s).0

module _ (d : Driver) (sql null : Bool) where
  pub Ends-pure : {A : Type 0} (a : A) → Ends d sql null (pure a)
  unfolding Ends pure
  Ends-pure a s = tt

  pub Ends-gets : {A : Type 0} (f : Frame d → A) → Ends d sql null (gets f)
  unfolding Ends gets
  Ends-gets f s = tt

  pub Ends-modify : (f : Frame d → Frame d) → Ends d sql null (modify f)
  unfolding Ends modify
  Ends-modify f s = tt

  pub Ends-bind :
      {A B : Type 0} (m : Action (Frame d) A) (f : A → Action (Frame d) B)
      → Ends d sql null m
      → ((a : A) → Ends d sql null (f a))
      → Ends d sql null (m >>= f)
  unfolding Ends ◌>>=◌
  Ends-bind {A} {B} m f h k s = either (m s) (h s)
    where
      either :
          (p : Outcome A × Frame d)
          → Allows sql null p.0
          → Allows sql null (◌>>=◌ {S = Frame d} {A = A} {B = B} (λ _. p) f s).0
      either (returned a, t) e = k a t
      either (sql_exception, t) e = e
      either (null_pointer, t) e = e

  pub Ends-catch_sql :
      {A : Type 0} (m last : Action (Frame d) A)
      → Ends d true null m
      → Ends d sql null last
      → Ends d sql null (catch_sql m last)
  unfolding Ends catch_sql
  Ends-catch_sql {A} m last h k s = either (m s) (h s)
    where
      either :
          (p : Outcome A × Frame d)
          → Allows true null p.0
          → Allows sql null (catch_sql {S = Frame d} {A = A} (λ _. p) last s).0
      either (returned a, t) e = tt
      either (sql_exception, t) e = k t
      either (null_pointer, t) e = e

  pub Ends-finally :
      {A : Type 0} (m : Action (Frame d) A) (last : Action (Frame d) Unit)
      → Ends d sql null m
      → Ends d sql null last
      → Ends d sql null (finally m last)
  unfolding Ends finally
  Ends-finally {A} m last h k s = either (m s) (h s) (last (m s).1) (k (m s).1)
    where
      either :
          (p : Outcome A × Frame d)
          → Allows sql null p.0
          → (q : Outcome Unit × Frame d) → Allows sql null q.0
          → Allows sql null (finally {S = Frame d} {A = A} (λ _. p) (λ _. q) s).0
      either (r, t) e (returned u, v) o = e
      either (r, t) e (sql_exception, v) o = o
      either (r, t) e (null_pointer, v) o = o

  pub Ends-when_some :
      {A : Type 0} (o : Option A) (f : A → Action (Frame d) Unit)
      → ((a : A) → Ends d sql null (f a))
      → Ends d sql null (when_some o f)
  Ends-when_some none f h = Ends-pure tt
  Ends-when_some (some a) f h = h a

module _ (d : Driver) where
  pub Ends-raise_sql : (A : Type 0) (null : Bool) → Ends d true null (raise_sql {A = A})
  unfolding Ends raise_sql
  Ends-raise_sql A null s = refl

  pub Ends-logged :
      (sql null : Bool) (m : Action (Frame d) Unit)
      → Ends d true null m
      → Ends d sql null (logged m)
  Ends-logged sql null m h = Ends-catch_sql d sql null m (pure tt) h (Ends-pure d sql null tt)

  pub Ends-not_null : {A : Type 0} (sql : Bool) (o : Option A) → Ends d sql true (not_null o)
  unfolding Ends raise_null
  Ends-not_null sql none = λ s. refl
  Ends-not_null sql (some a) = Ends-pure d sql true a

  -- Outcomes are what they are where the last block returns.
  pub finally_outcome :
      {A : Type 0} (m : Action (Frame d) A) (last : Action (Frame d) Unit) (s : Frame d)
      → Ends d false false last
      → (finally m last s).0 ≡ (m s).0
  unfolding Ends finally
  finally_outcome {A} m last s h = either (m s) (last (m s).1) (h (m s).1)
    where
      either :
          (p : Outcome A × Frame d) (q : Outcome Unit × Frame d)
          → Allows false false q.0
          → (finally {S = Frame d} {A = A} (λ _. p) (λ _. q) s).0 ≡ p.0
      either (r, t) (returned u, v) e = refl
      either (r, t) (sql_exception, v) e = let no : ⊥ = cc in absurd no
      either (r, t) (null_pointer, v) e = let no : ⊥ = cc in absurd no

  pub Ends-call :
      {A : Type 0} (null : Bool) (f : d.World → Reply A × d.World)
      → Ends d true null (call {d = d} f)
  unfolding Ends call
  Ends-call {A = A} null f s = either (f s.world)
    where
      either : (p : Reply A × d.World) → Allows true null (call {d = d} {A = A} (λ w. p) s).0
      either (answers a, w) = tt
      either (throws, w) = refl

  pub Ends-reply : {A : Type 0} (null : Bool) (r : Reply A) → Ends d true null (reply {d = d} r)
  Ends-reply null (answers a) = Ends-pure d true null a
  Ends-reply null throws = Ends-raise_sql _ null

pub ruleset ends_rules = (
  Ends-pure, Ends-gets, Ends-modify, Ends-bind, Ends-catch_sql, Ends-finally, Ends-when_some,
  Ends-raise_sql, Ends-logged, Ends-not_null, Ends-call, Ends-reply,
)

module _ (d : Driver) where
  pub Ends-release : (c : d.Connection) → Ends d false false (release {d = d} c)
  unfolding release
  Ends-release c = search ends_rules depth 8

  pub Ends-release_if :
      (b : Bool) (o : Option d.Connection)
      → Ends d false false (if b then when_some o (release {d = d}) else pure tt)
  Ends-release_if true o = Ends-when_some d false false o (release {d = d}) Ends-release
  Ends-release_if false o = Ends-pure d false false tt

  pub Ends-decrement_depth : Ends d false false (decrement_depth {d = d})
  unfolding Ends decrement_depth
  Ends-decrement_depth s = tt

  pub Ends-clean_up : Ends d false false (clean_up {d = d})
  unfolding clean_up close_thread_connection close_statement
  Ends-clean_up = search (ends_rules, Ends-release_if, Ends-decrement_depth) depth 12
