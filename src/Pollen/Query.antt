-- ===== src/Pollen/Query.antt =====
-- jquery.hive.pollen.js, `query`: the functions that a query is turned into calls of. The parser, which
-- rewrites the text of a query and evaluates it, is not modelled.
use joshlong_examples.Common.Int.{ℤ, pos, negsuc}
use joshlong_examples.Common.{
  ℕ, zero, suc, ◌+◌, ◌-◌, Bool, not, ◌&&◌, Option, none, some, List, [], ◌∷◌, ◌++◌, ltb,
  if◌then◌else◌, length, get_elem?, Text,
}
use joshlong_examples.Pollen.Values.{
  Value, text, arr, obj, Items, nil, cons, Fields, end, field, is_true, property, elements,
}
use joshlong_examples.Pollen.Lists.{chars}
use joshlong_examples.Pollen.Arrays.{in_arr}

-- `(i < 0) ? Math.max(0, i + len) : Math.min(len, i)`
unfoldable pub clamp : ℕ → ℤ → ℕ
clamp len (pos n) = if ltb len n then len else n
clamp len (negsuc n) = len - suc n

-- `end || len`
unfoldable pub end_or : ℕ → ℤ → ℤ
end_or len (pos zero) = pos len
end_or len (pos (suc n)) = pos (suc n)
end_or len (negsuc n) = negsuc n

-- The loop of `slice` from `i`, for a step that is not negative, with fuel; `none` is a loop that has
-- not ended.
unfoldable pub slice_loop : {A : Type 0} → ℕ → List A → ℕ → ℕ → ℕ → Option (List A)
slice_loop zero xs i stop step = none
slice_loop (suc fuel) xs i stop step =
    let rest = slice_loop fuel xs (i + step) stop step in
    if ltb i stop
    then elim (get_elem? xs i) [
      | none ↦ rest
      | some x ↦ elim rest [ none ↦ none | some r ↦ some (x ∷ r) ]
    ]
    else some []

-- `slice(obj, start, end, step)`
unfoldable pub slice : {A : Type 0} → ℕ → List A → ℤ → ℤ → ℕ → Option (List A)
slice fuel xs start stop step =
    let len = length xs in slice_loop fuel xs (clamp len start) (clamp len (end_or len stop)) step

-- `distinctFilter`. `mark` is what it tells elements apart by: the text `value + typeof value`, or a
-- text of its own for each object.
unfoldable pub distinct_loop :
    {A : Type 0} → (A → Text) → (A → ℕ → Bool) → ℕ → List A → List Text → List A
distinct_loop mark f i [] seen = []
distinct_loop mark f i (x ∷ xs) seen =
    let new = f x i && not (in_arr seen (mark x)) in
    let rest = distinct_loop mark f (i + 1) xs (if new then seen ++ mark x ∷ [] else seen) in
    if new then x ∷ rest else rest

unfoldable pub distinct_filter : {A : Type 0} → (A → Text) → (A → ℕ → Bool) → List A → List A
distinct_filter mark f xs = distinct_loop mark f 0 xs []

-- `expand` with no name: the values of all properties.
unfoldable pub field_values : Fields → List Value
field_values end = []
field_values (field k v fs) = v ∷ field_values fs

unfoldable pub expand_all : Value → List Value
unfolding chars
expand_all (arr xs) = elements xs
expand_all (text t) = chars t
expand_all (obj fs) = field_values fs
expand_all _ = []

-- The walk of `expand` with `true` from an array or an object: the objects below, each before what it
-- holds, and no arrays.
unfoldable mutual
  pub walk_objects : Value → List Value
  walk_objects (arr xs) = walk_items xs
  walk_objects (obj fs) = obj fs ∷ walk_fields fs
  walk_objects _ = []

  pub walk_items : Items → List Value
  walk_items nil = []
  walk_items (cons x xs) = walk_objects x ++ walk_items xs

  pub walk_fields : Fields → List Value
  walk_fields end = []
  walk_fields (field k v fs) = walk_objects v ++ walk_fields fs

-- `expand` with `true`; what is no object is given back.
unfoldable pub expand_objects : Value → List Value
expand_objects (arr xs) = walk_items xs
expand_objects (obj fs) = obj fs ∷ walk_fields fs
expand_objects v = v ∷ []

-- `expand` of an array or an object with a name that no array has a property of: its values, where
-- they are true as a condition.
unfoldable mutual
  pub find_named : Text → Value → List Value
  find_named name (arr xs) = find_items name xs
  find_named name (obj fs) =
      (if is_true (property name fs) then property name fs ∷ [] else []) ++ find_fields name fs
  find_named name _ = []

  pub find_items : Text → Items → List Value
  find_items name nil = []
  find_items name (cons x xs) = find_named name x ++ find_items name xs

  pub find_fields : Text → Fields → List Value
  find_fields name end = []
  find_fields name (field k v fs) = find_named name v ++ find_fields name fs

-- `expand` with several names, on an object.
unfoldable pub pick_named : List Text → Fields → List Value
pick_named [] fs = []
pick_named (n ∷ ns) fs = property n fs ∷ pick_named ns fs
