-- ===== src/Pollen/Evaluate.antt =====
-- jquery.hive.pollen.js, `evaluate`: tests of values. `is_nan` is JavaScript's `isNaN` of a text.
use joshlong_examples.Common.{
  Bool, true, false, not, ◌&&◌, ◌||◌, List, [], ◌∷◌, ◌==◌, if◌then◌else◌, nonempty, Text, codes,
}
use joshlong_examples.Pollen.Values.{
  Value, undefined, null, bool, num, text, fn, arr, obj, Items, nil, cons, field, is_true, has_key,
}

-- `isObj`: an array and a function have another constructor than Object, and so has a text.
unfoldable pub is_obj : Value → Bool
is_obj (obj fs) = true
is_obj _ = false

unfoldable pub is_empty_obj : Value → Bool
is_empty_obj (obj (field k v fs)) = false
is_empty_obj (arr (cons x xs)) = false
is_empty_obj (text (c ∷ cs)) = false
is_empty_obj _ = true

unfoldable pub is_arr : Value → Bool
unfolding has_key
is_arr (arr xs) = true
is_arr (obj fs) = has_key (codes "splice") fs && has_key (codes "join") fs
is_arr _ = false

unfoldable pub is_fn : Value → Bool
is_fn (fn n) = true
is_fn _ = false

unfoldable pub is_str : (Text → Bool) → Value → Bool
is_str is_nan (text t) = is_nan t
is_str is_nan _ = false

unfoldable pub is_num : Value → Bool
is_num (num n) = true
is_num _ = false

unfoldable pub is_null : Value → Bool
is_null null = true
is_null _ = false

-- Whether a value shows as the empty text in the text of an array, and whether that text is empty.
unfoldable mutual
  pub shows_empty : Value → Bool
  shows_empty undefined = true
  shows_empty null = true
  shows_empty (text t) = not (nonempty t)
  shows_empty (arr xs) = join_is_empty xs
  shows_empty _ = false

  pub join_is_empty : Items → Bool
  join_is_empty nil = true
  join_is_empty (cons x nil) = shows_empty x
  join_is_empty (cons x (cons y xs)) = false

-- `isEmpty`: the loose equations with null and with the empty text.
unfoldable pub is_empty : Value → Bool
unfolding shows_empty
is_empty undefined = true
is_empty null = true
is_empty (bool b) = not b
is_empty (num n) = n == 0
is_empty (text t) = not (nonempty t)
is_empty (arr xs) = join_is_empty xs
is_empty _ = false

unfoldable pub is_def : Value → Bool
unfolding is_true is_empty
is_def arg = not (not (is_true arg) || is_empty arg)

-- `eq`, over `===`.
unfoldable pub eq : {A : Type 0} → (A → A → Bool) → A → List A → Bool
eq same arg [] = false
eq same arg (v ∷ values) = let rest = eq same arg values in if same arg v then true else rest
