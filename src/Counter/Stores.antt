-- ===== src/Counter/Stores.antt =====
-- RedisCounter.java, MySqlCounter.java, the interface Counter.java, and Main.java, which uses it.
--
-- A store of Redis is a map from keys to texts. The table `counter` is a map from names to numbers,
-- since ds.properties gives it a unique index on the name, and its statements are what the SQL in the
-- source says. What the collation of the index and the ranges of the types make of them is the record `Mysql`.
use joshlong_examples.Common.{◌≤◌, ◌≡◌, length, Option, none, some, Text, codes, Table, find, put}
use joshlong_examples.Common.Int.{ℤ, pos, negsuc, ◌+ℤ◌, IsInt, to_int}
use joshlong_examples.Counter.Decimal.{show, parse_int}

-- A call ends, or throws with the state as it is then.
pub data Call (S : Type 0) : Type 0 where
  done threw : S → Call S

unfoldable pub state_of : {S : Type 0} → Call S → S
state_of (done s) = s
state_of (threw s) = s

-- The interface, over the state of an implementation.
pub record Counter : Type 1 where
  pub State : Type 0
  pub increment : Text → State → Call State
  pub decrement : Text → State → Call State
  pub get_count : State → Text → Option ℤ  -- `none` is an exception

-- `modifyKey`, where `current` is the text at the key.
unfoldable pub modify_current : Text → ℤ → Text → Table Text → Call (Table Text)
modify_current k d current s = elim (parse_int current) [
  | none ↦ threw s
  | some n ↦ done (put k (show (to_int (n +ℤ d))) s)
]

unfoldable pub modify_key : Text → ℤ → Table Text → Call (Table Text)
unfolding modify_current
modify_key k d s = elim (find k s) [
  | none ↦ modify_current k d (codes "0") (put k (codes "0") s)
  | some current ↦ modify_current k d current s
]

unfoldable pub redis_count : Table Text → Text → Option ℤ
redis_count s k = elim (find k s) [ none ↦ none | some t ↦ parse_int t ]

abbrev pub redis_counter : Counter
redis_counter = record {
  State = Table Text;
  increment = λ k s. modify_key k (pos 1) s;
  decrement = λ k s. modify_key k (negsuc 0) s;
  get_count = redis_count;
}

-- What MySQL and its driver leave open: by what the collation of the column tells names apart, what the
-- column keeps of a name that is too long, and what becomes of numbers out of range.
pub record Mysql : Type 0 where
  pub key_of : Text → Text  -- two names are the same in the index where this is
  pub column : Text → Option Text  -- the key under which a name is inserted, if it is
  pub sum : ℤ → ℤ → Option ℤ  -- of two of the type `bigint`
  pub get_int : ℤ → Option ℤ  -- `ResultSet.getInt`
  pub column_lem : (name : Text) → length name ≤ 255 → column name ≡ some (key_of name)
  pub sum_lem : (a b : ℤ) → IsInt (a +ℤ b) → sum a b ≡ some (a +ℤ b)
  pub get_int_lem : (z : ℤ) → IsInt z → get_int z ≡ some z

-- The statement `upsert`: what is inserted, and what is added to a row that is there. A statement
-- that fails changes nothing.
unfoldable pub add_to : Mysql → Text → ℤ → ℤ → Table ℤ → Call (Table ℤ)
add_to m key val added t = elim (m.sum val added) [ none ↦ threw t | some z ↦ done (put key z t) ]

unfoldable pub insert_or_add : Mysql → Text → ℤ → ℤ → Table ℤ → Call (Table ℤ)
unfolding add_to
insert_or_add m key fresh added t = elim (find key t) [
  | none ↦ done (put key fresh t)
  | some val ↦ add_to m key val added t
]

unfoldable pub upsert : Mysql → Text → ℤ → ℤ → Table ℤ → Call (Table ℤ)
unfolding insert_or_add
upsert m name fresh added t = elim (m.column name) [
  | none ↦ threw t
  | some key ↦ insert_or_add m key fresh added t
]

-- The statement `fetch`, through `queryForInt`, which throws where there is no row.
unfoldable pub fetch : Mysql → Table ℤ → Text → Option ℤ
fetch m t name = elim (find (m.key_of name) t) [ none ↦ none | some val ↦ m.get_int val ]

abbrev pub mysql_counter : Mysql → Counter
mysql_counter m = record {
  State = Table ℤ;
  increment = λ name t. upsert m name (pos 1) (pos 1) t;
  decrement = λ name t. upsert m name (pos 0) (negsuc 0) t;
  get_count = fetch m;
}

-- The rest of a call, where it does not throw.
unfoldable pub and_then : {S A : Type 0} → Call S → (S → Option A) → Option A
and_then (done s) f = f s
and_then (threw s) f = none

-- `exercise` of Main.java: the two counts that it logs; `none` is an exception on the way.
unfoldable pub exercise : (c : Counter) → Text → c.State → Option (ℤ × ℤ)
unfolding and_then
exercise c key s = and_then (c.increment key s) (λ once. and_then (c.increment key once) (λ twice.
    elim (c.get_count twice key) [
      | none ↦ none
      | some first ↦ and_then (c.decrement key twice) (λ after. elim (c.get_count after key) [
        | none ↦ none
        | some second ↦ some (first, second)
      ])
    ]))
