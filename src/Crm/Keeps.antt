-- ===== src/Crm/Keeps.antt =====
-- What the statements in the middle of a method leave alone: the connection of the thread, its depth, and
-- the number of connections held.
use joshlong_examples.Common.{◌≡◌, refl, sym, subst, ◌∙◌, Option, none, some}
use joshlong_examples.Common.Int.{ℤ}
use joshlong_examples.Crm.Exceptions.{
  Outcome, returned, sql_exception, null_pointer, Action, pure, gets, raise_null, raise_sql,
  not_null, when_some, logged, catch_sql, modify, ◌>>=◌,
}
use joshlong_examples.Crm.Driver.{Reply, answers, throws, Driver}
use joshlong_examples.Crm.Raw.{Frame, call, reply, keep_statement}
use joshlong_examples.Crm.Pool.{Pool}

module _ {d : Driver} (pool : Pool d) where
  -- What a statement in the middle of a method leaves alone.
  abbrev pub Same : Frame d → Frame d → Type 0
  Same s t =
      (t.thread_connection ≡ s.thread_connection)
      × (t.depth ≡ s.depth)
      × (pool.held t.world ≡ pool.held s.world)

  abbrev pub Depths : Type 1
  Depths = Option d.Connection → Option ℤ → Type 0

  -- Where the thread has the connection and the depth that P says.
  unfoldable pub Keeps : {A : Type 0} → Depths → Action (Frame d) A → Type 0
  Keeps P m = (s : Frame d) → P s.thread_connection s.depth → Same s (m s).1

  still :
      (P : Depths) (s t : Frame d)
      → Same s t
      → P s.thread_connection s.depth
      → P t.thread_connection t.depth
  still P s t h i =
      subst (λ o. P o t.depth) (sym h.0) (subst (λ n. P s.thread_connection n) (sym h.1) i)

  pub Same-trans : (s t u : Frame d) → Same s t → Same t u → Same s u
  Same-trans s t u h k = (k.0 ∙ h.0, k.1 ∙ h.1, k.2 ∙ h.2)

  pub Keeps-pure : {A : Type 0} (P : Depths) (a : A) → Keeps P (pure a)
  unfolding Keeps pure
  Keeps-pure P a s i = (refl, refl, refl)

  pub Keeps-gets : {A : Type 0} (P : Depths) (f : Frame d → A) → Keeps P (gets f)
  unfolding Keeps gets
  Keeps-gets P f s i = (refl, refl, refl)

  pub Keeps-raise_sql : (A : Type 0) (P : Depths) → Keeps P (raise_sql {A = A})
  unfolding Keeps raise_sql
  Keeps-raise_sql A P s i = (refl, refl, refl)

  pub Keeps-not_null : {A : Type 0} (P : Depths) (o : Option A) → Keeps P (not_null o)
  unfolding Keeps raise_null
  Keeps-not_null P none = λ s i. (refl, refl, refl)
  Keeps-not_null P (some a) = Keeps-pure P a

  pub Keeps-reply : {A : Type 0} (P : Depths) (r : Reply A) → Keeps P (reply r)
  Keeps-reply P (answers a) = Keeps-pure P a
  Keeps-reply P throws = Keeps-raise_sql _ P

  pub Keeps-call :
      {A : Type 0} (P : Depths) (f : d.World → Reply A × d.World)
      → ((w : d.World) → pool.held (f w).1 ≡ pool.held w)
      → Keeps P (call f)
  unfolding Keeps call
  Keeps-call {A = A} P f h s i = either (f s.world) (h s.world)
    where
      either :
          (p : Reply A × d.World)
          → pool.held p.1 ≡ pool.held s.world
          → Same s (call {A = A} (λ w. p) s).1
      either (answers a, w) e = (refl, refl, e)
      either (throws, w) e = (refl, refl, e)

  pub Keeps-bind :
      {A B : Type 0} (P : Depths) (m : Action (Frame d) A) (f : A → Action (Frame d) B)
      → Keeps P m
      → ((a : A) → Keeps P (f a))
      → Keeps P (m >>= f)
  unfolding Keeps ◌>>=◌
  Keeps-bind {A} {B} P m f h k s i = either (m s) (h s i)
    where
      either :
          (p : Outcome A × Frame d)
          → Same s p.1
          → Same s (◌>>=◌ {S = Frame d} {A = A} {B = B} (λ _. p) f s).1
      either (returned a, t) e = Same-trans s t (f a t).1 e (k a t (still P s t e i))
      either (sql_exception, t) e = e
      either (null_pointer, t) e = e

  pub Keeps-catch_sql :
      {A : Type 0} (P : Depths) (m last : Action (Frame d) A)
      → Keeps P m
      → Keeps P last
      → Keeps P (catch_sql m last)
  unfolding Keeps catch_sql
  Keeps-catch_sql {A} P m last h k s i = either (m s) (h s i)
    where
      either :
          (p : Outcome A × Frame d)
          → Same s p.1
          → Same s (catch_sql {S = Frame d} {A = A} (λ _. p) last s).1
      either (returned a, t) e = e
      either (sql_exception, t) e = Same-trans s t (last t).1 e (k t (still P s t e i))
      either (null_pointer, t) e = e

  pub Keeps-when_some :
      {A : Type 0} (P : Depths) (o : Option A) (f : A → Action (Frame d) Unit)
      → ((a : A) → Keeps P (f a))
      → Keeps P (when_some o f)
  Keeps-when_some P none f h = Keeps-pure P tt
  Keeps-when_some P (some a) f h = h a

  pub Keeps-logged : (P : Depths) (m : Action (Frame d) Unit) → Keeps P m → Keeps P (logged m)
  Keeps-logged P m h = Keeps-catch_sql P m (pure tt) h (Keeps-pure P tt)

  pub Keeps-keep_statement : (P : Depths) (p : d.Statement) → Keeps P (keep_statement p)
  unfolding Keeps keep_statement modify
  Keeps-keep_statement P p s i = (refl, refl, refl)

-- The rules that follow a do block.
pub ruleset keeps_rules = (
  Keeps-pure, Keeps-gets, Keeps-raise_sql, Keeps-not_null, Keeps-reply, Keeps-call, Keeps-bind,
  Keeps-catch_sql, Keeps-when_some, Keeps-logged, Keeps-keep_statement,
)
