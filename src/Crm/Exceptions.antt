-- ===== src/Crm/Exceptions.antt =====
-- What a Java method does to a state: it returns, or it throws and keeps what it wrote.
use joshlong_examples.Common.{Option, none, some}

pub data Outcome (A : Type 0) : Type 0 where
  returned : A → Outcome A
  sql_exception null_pointer : Outcome A

abbrev pub Action : Type 0 → Type 0 → Type 0
Action S A = S → Outcome A × S

module _ {S A : Type 0} where
  unfoldable pub pure : A → Action S A
  pure a s = (returned a, s)

  unfoldable pub gets : (S → A) → Action S A
  gets f s = (returned (f s), s)

  unfoldable pub raise_sql : Action S A
  raise_sql s = (sql_exception, s)

  unfoldable pub raise_null : Action S A
  raise_null s = (null_pointer, s)

  -- A call on what may be null.
  abbrev pub not_null : Option A → Action S A
  not_null none = raise_null
  not_null (some a) = pure a

  -- `try` with a handler of SQLException
  unfoldable pub catch_sql : Action S A → Action S A → Action S A
  catch_sql body handler s =
      let (r, s') = body s in
      elim r [
        | returned a ↦ (returned a, s')
        | sql_exception ↦ handler s'
        | null_pointer ↦ (null_pointer, s')
      ]

unfoldable pub modify : {S : Type 0} → (S → S) → Action S Unit
modify f s = (returned tt, f s)

infixl 5 ◌>>=◌ ◌>>◌
unfoldable pub ◌>>=◌ : {S A B : Type 0} → Action S A → (A → Action S B) → Action S B
◌>>=◌ m f s =
    let (r, s') = m s in
    elim r [
      | returned a ↦ f a s'
      | sql_exception ↦ (sql_exception, s')
      | null_pointer ↦ (null_pointer, s')
    ]

abbrev pub ◌>>◌ : {S A B : Type 0} → Action S A → Action S B → Action S B
m >> k = m >>= λ _. k

-- `finally`: what the last block throws takes the place of what the first one did.
unfoldable pub finally : {S A : Type 0} → Action S A → Action S Unit → Action S A
finally body last s =
    let (r, s') = body s in
    let (r', s'') = last s' in
    elim r' [
      | returned _ ↦ (r, s'')
      | sql_exception ↦ (sql_exception, s'')
      | null_pointer ↦ (null_pointer, s'')
    ]

-- if (o != null) …
abbrev pub when_some : {S A : Type 0} → Option A → (A → Action S Unit) → Action S Unit
when_some none f = pure tt
when_some (some a) f = f a

-- `try` with a handler that only logs
abbrev pub logged : {S : Type 0} → Action S Unit → Action S Unit
logged m = catch_sql m (pure tt)
