-- ===== src/Counter/Tests.antt =====
-- Runs of the counters on given calls.
use joshlong_examples.Common.{
  ◌+◌, ◌≤◌, ◌&&◌, leb, ltb, length, Option, ◌≡◌, ◌↔◌, refl, arith, true, false, none, some, [], ◌∷◌,
  if◌then◌else◌, Text, codes, text_eq, Table, find, put,
}
use Prim.Native.Nat.{◌^◌}
use joshlong_examples.Common.Int.{ℤ, pos, negsuc, ◌+ℤ◌, to_int, IsInt}
use joshlong_examples.Counter.Decimal.{
  show_digits, show, parse_digits, parse_magnitude, parse_unsigned, parse_int,
}
use joshlong_examples.Counter.Stores.{
  modify_current, modify_key, redis_count, redis_counter, Mysql, add_to, insert_or_add, upsert,
  fetch, mysql_counter, and_then, exercise,
}
use joshlong_examples.Counter.Tally.{
  increments, decrements, Calls, run, tally, is_called, starts_down,
}
use joshlong_examples.Counter.Redis.{stored, redis_count_lem}
use joshlong_examples.Counter.Exercise.{exercise_lem}
use joshlong_examples.Counter.Mysql.{
  keyed, mysql_tally, AllApart, mysql_count_lem, mysql_count-eq-redis_count_iff,
}
use joshlong_examples.Counter.Races.{both_start, schedule, crossed, in_turn, crossed-lost}

abbrev hits : Text
hits = codes "hits"

-- A decrement first, and another name in between.
abbrev some_calls : Calls
some_calls =
    (decrements, hits) ∷ (increments, codes "misses") ∷ (increments, hits) ∷ (increments, hits) ∷ []

-- A server whose collation ignores the case of letters, and which refuses what is too long or too large.
abbrev lower : Text → Text
lower [] = []
lower (c ∷ cs) = (if leb b'A' c && leb c b'Z' then c + 32 else c) ∷ lower cs

abbrev short_key : Text → Option Text
short_key name = if leb (length name) 255 then some (lower name) else none

short_key_lem : (name : Text) → length name ≤ 255 → short_key name ≡ some (lower name)
short_key_lem name h = ground arith

abbrev in_int : ℤ → Option ℤ
in_int (pos n) = if ltb n (2 ^ 31) then some (pos n) else none
in_int (negsuc n) = if ltb n (2 ^ 31) then some (negsuc n) else none

in_int_lem : (z : ℤ) → IsInt z → in_int z ≡ some z
in_int_lem (pos n) h = ground arith
in_int_lem (negsuc n) h = ground arith

abbrev server : Mysql
server = record {
  key_of = lower;
  column = short_key;
  sum = λ a b. some (a +ℤ b);
  get_int = in_int;
  column_lem = short_key_lem;
  sum_lem = λ a b h. refl;
  get_int_lem = in_int_lem;
}

-- What `main` logs of each implementation on an empty store.
exercise_redis : exercise redis_counter hits [] ≡ some (pos 2, pos 1)
unfolding exercise and_then modify_key modify_current redis_count find put text_eq to_int show
    show_digits parse_int parse_unsigned parse_magnitude parse_digits ◌+ℤ◌
exercise_redis = refl

exercise_mysql : exercise (mysql_counter server) hits [] ≡ some (pos 2, pos 1)
unfolding exercise and_then upsert insert_or_add add_to fetch find put text_eq to_int ◌+ℤ◌
exercise_mysql = refl

parse_int_overflow : parse_int (codes "2147483648") ≡ none
unfolding parse_int parse_unsigned parse_magnitude parse_digits
parse_int_overflow = refl

show_negative : show (negsuc 41) ≡ codes "-42"
unfolding show show_digits
show_negative = refl

redis_count_lem_example :
    redis_counter.get_count (run redis_counter some_calls []) hits
    ≡ (if is_called hits some_calls then some (to_int (tally hits some_calls)) else none)
redis_count_lem_example = redis_count_lem hits some_calls

mysql_count_lem_example :
    (mysql_counter server).get_count (run (mysql_counter server) some_calls []) hits ≡ (
      if is_called (server.key_of hits) (keyed server some_calls)
      then some (mysql_tally server hits some_calls)
      else none)
mysql_count_lem_example = mysql_count_lem server hits some_calls (omega arith) (omega arith)

is_called-hits : is_called hits some_calls ≡ true
unfolding text_eq
is_called-hits = refl

AllApart-hits : AllApart server hits some_calls
AllApart-hits = (λ e. refl, (λ e. e, (λ e. refl, (λ e. refl, tt))))

mysql_count-eq-redis_count_iff_example :
    ((mysql_counter server).get_count (run (mysql_counter server) some_calls []) hits
      ≡ redis_counter.get_count (run redis_counter some_calls []) hits)
    ↔ (starts_down hits some_calls ≡ false)
mysql_count-eq-redis_count_iff_example =
    mysql_count-eq-redis_count_iff server hits some_calls (omega arith) (omega arith) AllApart-hits
      is_called-hits

-- The texts that Redis holds.
abbrev five : Table Text
five = (hits, show (pos 5)) ∷ []

find-five : find hits five ≡ some (show (pos 5))
unfolding find text_eq
find-five = refl

crossed-lost_example :
    (find hits (schedule hits (crossed true false) (both_start (pos 1) (negsuc 0) five)).store
      ≡ some (show (to_int (pos 5 +ℤ pos 1))))
    × (find hits (schedule hits (in_turn true) (both_start (pos 1) (negsuc 0) five)).store
        ≡ some (show (to_int (pos 5 +ℤ pos 1 +ℤ negsuc 0))))
crossed-lost_example =
    crossed-lost hits (pos 1) (negsuc 0) (pos 5) five true false find-five (omega arith)

abbrev five_rows : Table ℤ
five_rows = (hits, pos 5) ∷ []

find-rows : find hits five_rows ≡ some (pos 5)
unfolding find text_eq
find-rows = refl

find-stored : find hits five ≡ stored (some (pos 5))
unfolding find text_eq to_int
find-stored = refl

exercise_lem_example :
    (exercise redis_counter hits five ≡ some (pos 5 +ℤ pos 2, pos 5 +ℤ pos 1))
    × (exercise (mysql_counter server) hits five_rows ≡ some (pos 5 +ℤ pos 2, pos 5 +ℤ pos 1))
unfolding ◌+ℤ◌
exercise_lem_example =
    exercise_lem server hits five five_rows (some (pos 5)) (omega arith) find-stored find-rows
      (omega arith)
