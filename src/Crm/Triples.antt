-- ===== src/Crm/Triples.antt =====
-- Rules on what holds of the transactions where a block of RawJdbcCustomerRepository.java returns.
use joshlong_examples.Common.{◌≡◌, refl, sym, subst, Option, none, some}
use joshlong_examples.Crm.Exceptions.{
  Outcome, returned, sql_exception, null_pointer, Action, pure, gets, raise_null, raise_sql,
  not_null, when_some, logged, catch_sql, modify, ◌>>=◌, finally,
}
use joshlong_examples.Crm.Driver.{Reply, answers, throws, Driver}
use joshlong_examples.Crm.Raw.{Frame, call, reply, method, keep_statement}
use joshlong_examples.Crm.Transactions.{View, IfAnswers, Transactions}

abbrev pub Ensures : {A : Type 0} → (A → View → Type 0) → Outcome A → View → Type 0
Ensures Q (returned a) v = Q a v
Ensures Q sql_exception v = Unit
Ensures Q null_pointer v = Unit

module _ {d : Driver} (tx : Transactions d) where
  -- Where the block begins with P and returns, it ends with Q.
  unfoldable pub Triple :
      {A : Type 0} → (View → Type 0) → Action (Frame d) A → (A → View → Type 0) → Type 0
  Triple P m Q = (s : Frame d) → P (tx.view s.world) → Ensures Q (m s).0 (tx.view (m s).1.world)

  pub Triple-pure : {A : Type 0} (Q : A → View → Type 0) (a : A) → Triple (Q a) (pure a) Q
  unfolding Triple pure
  Triple-pure Q a s h = h

  pub Triple-gets : {A : Type 0} (P : View → Type 0) (f : Frame d → A) → Triple P (gets f) (λ _. P)
  unfolding Triple gets
  Triple-gets P f s h = h

  pub Triple-raise_sql :
      {A : Type 0} (P : View → Type 0) (Q : A → View → Type 0) → Triple P raise_sql Q
  unfolding Triple raise_sql
  Triple-raise_sql P Q s h = tt

  pub Triple-not_null :
      {A : Type 0} (P : View → Type 0) (o : Option A) → Triple P (not_null o) (λ _. P)
  unfolding Triple raise_null
  Triple-not_null P none = λ s h. tt
  Triple-not_null P (some a) = Triple-pure (λ _. P) a

  pub Triple-reply : {A : Type 0} (P : View → Type 0) (r : Reply A) → Triple P (reply r) (λ _. P)
  Triple-reply P (answers a) = Triple-pure (λ _. P) a
  Triple-reply P throws = Triple-raise_sql P (λ _. P)

  pub Triple-modify :
      (P : View → Type 0) (f : Frame d → Frame d)
      → ((s : Frame d) → (f s).world ≡ s.world)
      → Triple P (modify f) (λ _. P)
  unfolding Triple modify
  Triple-modify P f h s i = subst (λ w. P (tx.view w)) (sym (h s)) i

  pub Triple-call :
      {A : Type 0} (P : View → Type 0) (Q : A → View → Type 0) (f : d.World → Reply A × d.World)
      → ((w : d.World) → P (tx.view w) → IfAnswers (f w).0 (λ a. Q a (tx.view (f w).1)))
      → Triple P (call f) Q
  unfolding Triple call
  Triple-call {A} P Q f h s i = either (f s.world) (h s.world i)
    where
      either :
          (p : Reply A × d.World)
          → IfAnswers p.0 (λ a. Q a (tx.view p.1))
          → Ensures Q (call {A = A} (λ _. p) s).0 (tx.view (call {A = A} (λ _. p) s).1.world)
      either (answers a, w) e = e
      either (throws, w) e = tt

  pub Triple-bind :
      {A B : Type 0} (P : View → Type 0) (R : A → View → Type 0) (Q : B → View → Type 0)
      (m : Action (Frame d) A) (f : A → Action (Frame d) B)
      → Triple P m R
      → ((a : A) → Triple (R a) (f a) Q)
      → Triple P (m >>= f) Q
  unfolding Triple ◌>>=◌
  Triple-bind {A} {B} P R Q m f h k s i = either (m s) (h s i)
    where
      either :
          (p : Outcome A × Frame d)
          → Ensures R p.0 (tx.view p.1.world)
          → Ensures Q
              (◌>>=◌ {S = Frame d} {A = A} {B = B} (λ _. p) f s).0
              (tx.view (◌>>=◌ {S = Frame d} {A = A} {B = B} (λ _. p) f s).1.world)
      either (returned a, t) e = k a t e
      either (sql_exception, t) e = tt
      either (null_pointer, t) e = tt

  pub Triple-catch_sql :
      {A : Type 0} (P : View → Type 0) (Q : A → View → Type 0) (m last : Action (Frame d) A)
      → Triple P m Q
      → Triple (λ _. Unit) last Q
      → Triple P (catch_sql m last) Q
  unfolding Triple catch_sql
  Triple-catch_sql {A} P Q m last h k s i = either (m s) (h s i)
    where
      either :
          (p : Outcome A × Frame d)
          → Ensures Q p.0 (tx.view p.1.world)
          → Ensures Q
              (catch_sql {S = Frame d} {A = A} (λ _. p) last s).0
              (tx.view (catch_sql {S = Frame d} {A = A} (λ _. p) last s).1.world)
      either (returned a, t) e = e
      either (sql_exception, t) e = k t tt
      either (null_pointer, t) e = tt

  pub Triple-finally :
      {A : Type 0} (P : View → Type 0) (Q : A → View → Type 0) (m : Action (Frame d) A)
      (last : Action (Frame d) Unit)
      → Triple P m Q
      → ((a : A) → Triple (Q a) last (λ _. Q a))
      → Triple P (finally m last) Q
  unfolding Triple finally
  Triple-finally {A} P Q m last h k s i = either (m s) (h s i)
    where
      after : Outcome A → Outcome Unit × Frame d → Type 0
      after r q =
          Ensures Q (finally {S = Frame d} {A = A} (λ _. (r, s)) (λ _. q) s).0
            (tx.view (finally {S = Frame d} {A = A} (λ _. (r, s)) (λ _. q) s).1.world)

      on_return :
          (a : A) (q : Outcome Unit × Frame d)
          → Ensures (λ _. Q a) q.0 (tx.view q.1.world)
          → after (returned a) q
      on_return a (returned u, t) e = e
      on_return a (sql_exception, t) e = tt
      on_return a (null_pointer, t) e = tt

      on_sql : (q : Outcome Unit × Frame d) → after sql_exception q
      on_sql (returned u, t) = tt
      on_sql (sql_exception, t) = tt
      on_sql (null_pointer, t) = tt

      on_null : (q : Outcome Unit × Frame d) → after null_pointer q
      on_null (returned u, t) = tt
      on_null (sql_exception, t) = tt
      on_null (null_pointer, t) = tt

      either :
          (p : Outcome A × Frame d)
          → Ensures Q p.0 (tx.view p.1.world)
          → Ensures Q
              (finally {S = Frame d} {A = A} (λ _. p) last s).0
              (tx.view (finally {S = Frame d} {A = A} (λ _. p) last s).1.world)
      either (returned a, t) e = on_return a (last t) (k a t e)
      either (sql_exception, t) e = on_sql (last t)
      either (null_pointer, t) e = on_null (last t)

  pub Triple-method :
      {A : Type 0} (P : View → Type 0) (Q : A → View → Type 0) (m : Action (Frame d) A)
      → Triple P m Q
      → Triple P (method m) Q
  unfolding Triple method
  Triple-method P Q m h s i = h (record s { connection = none; statement = none }) i

  -- A call that changes no transaction.
  pub Triple-calm :
      {A : Type 0} (P : View → Type 0) (f : d.World → Reply A × d.World)
      → ((w : d.World) → tx.view (f w).1 ≡ tx.view w)
      → Triple P (call f) (λ _. P)
  Triple-calm {A} P f h = Triple-call P (λ _. P) f (λ w i. answered (f w).0 (subst P (sym (h w)) i))
    where
      answered : {Q : Type 0} (r : Reply A) → Q → IfAnswers r (λ _. Q)
      answered (answers a) q = q
      answered throws q = tt

  pub Triple-keep_statement :
      (P : View → Type 0) (p : d.Statement) → Triple P (keep_statement p) (λ _. P)
  unfolding keep_statement
  Triple-keep_statement P p = Triple-modify P (λ s. record s { statement = some p }) (λ s. refl)

  -- A call whose exception is only logged.
  pub Triple-logged :
      (P : View → Type 0) (f : d.World → Reply Unit × d.World)
      → ((w : d.World) → P (tx.view w) → P (tx.view (f w).1))
      → Triple P (logged (call f)) (λ _. P)
  unfolding Triple catch_sql call pure
  Triple-logged P f h s i = either (f s.world) (h s.world i)
    where
      either :
          (p : Reply Unit × d.World)
          → P (tx.view p.1)
          → Ensures
              (λ _. P)
              (logged (call (λ _. p)) s).0
              (tx.view (logged (call (λ _. p)) s).1.world)
      either (answers u, w) e = e
      either (throws, w) e = e

  pub Triple-when_some :
      {A : Type 0} (P : View → Type 0) (o : Option A) (f : A → Action (Frame d) Unit)
      → ((a : A) → Triple P (f a) (λ _. P))
      → Triple P (when_some o f) (λ _. P)
  Triple-when_some P none f h = Triple-pure (λ _. P) tt
  Triple-when_some P (some a) f h = h a

  pub stays-pure : {A : Type 0} (P : View → Type 0) (a : A) → Triple P (pure a) (λ _. P)
  stays-pure P a = Triple-pure (λ _. P) a

  pub stays-raise_sql : (A : Type 0) (P : View → Type 0) → Triple P (raise_sql {A = A}) (λ _. P)
  stays-raise_sql A P = Triple-raise_sql P (λ _. P)

  pub stays-bind :
      {A B : Type 0} (P : View → Type 0) (m : Action (Frame d) A) (f : A → Action (Frame d) B)
      → Triple P m (λ _. P)
      → ((a : A) → Triple P (f a) (λ _. P))
      → Triple P (m >>= f) (λ _. P)
  stays-bind P m f h k = Triple-bind P (λ _. P) (λ _. P) m f h k

-- The rules for what holds before a block and after it.
pub ruleset stays_rules = (
  stays-pure, stays-bind, Triple-gets, Triple-not_null, Triple-reply, Triple-calm,
  Triple-keep_statement, Triple-when_some,
)
