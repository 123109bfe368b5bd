-- ===== src/Pollen/Lists.antt =====
-- jquery.hive.pollen.js, `array`: the functions that go through an array or an object.
--
-- Throwing is `none`, in the functions that can throw. An object that is made to look like an array,
-- with `splice` and `join`, is left out in `each`, `size` and `filter`.
use joshlong_examples.Common.{
  ℕ, ◌+◌, Bool, true, false, not, ◌&&◌, Option, none, some, List, [], ◌∷◌, ◌++◌, if◌then◌else◌,
  length, get_elem?, replicate, Text,
}
use joshlong_examples.Pollen.Values.{
  Value, undefined, null, bool, num, text, fn, arr, obj, Items, nil, cons, Fields, end, field,
  elements, is_true, is_undefined, property, assign,
}
use joshlong_examples.Pollen.Evaluate.{is_arr, is_null}

-- The calls of `forEach` on an array with holes: the value and its index.
unfoldable pub for_each : {A : Type 0} → ℕ → List (Option A) → List (A × ℕ)
for_each i [] = []
for_each i (none ∷ xs) = for_each (i + 1) xs
for_each i (some x ∷ xs) = (x, i) ∷ for_each (i + 1) xs

-- A call of the function of `each`: for an array the index and the value; for an object the key,
-- the value and a count.
pub data EachCall : Type 0 where
  at_index : ℕ → Value → EachCall
  at_key : Text → Value → ℕ → EachCall

unfoldable pub each_item : ℕ → Items → List EachCall
each_item i nil = []
each_item i (cons x xs) = at_index i x ∷ each_item (i + 1) xs

unfoldable pub each_field : ℕ → Fields → List EachCall
each_field i end = []
each_field i (field k v fs) =
    let skipped = each_field i fs in
    let called = at_key k v i ∷ each_field (i + 1) fs in if is_undefined v then skipped else called

-- `each(obj, fn)` on an array or an object that is not made to look like one.
unfoldable pub each : Value → Option (List EachCall)
each undefined = none
each null = none
each (arr xs) = some (each_item 0 xs)
each (obj fs) = some (each_field 0 fs)
each _ = some []

-- `toArray` of what is no object.
unfoldable pub chars : Text → List Value
chars [] = []
chars (c ∷ cs) = text (c ∷ []) ∷ chars cs

unfoldable pub to_array : Value → List Value
unfolding elements chars
to_array (arr xs) = elements xs
to_array (text t) = chars t
to_array (fn n) = replicate n undefined
to_array _ = []

-- `isAtIndex`, over `==`; reading out of range is undefined.
unfoldable pub is_at_index : (Value → Value → Bool) → List Value → ℕ → Value → Bool
is_at_index same xs i arg = elim (get_elem? xs i) [
  | none ↦ same undefined arg
  | some v ↦ same v arg
]

-- `arr.indexOf(arg)`; `none` is -1.
unfoldable pub index_of_item : {A : Type 0} → (A → A → Bool) → List A → A → Option ℕ
index_of_item same [] arg = none
index_of_item same (x ∷ xs) arg =
    let later = index_of_item same xs arg in
    if same x arg then some 0 else elim later [ none ↦ none | some i ↦ some (i + 1) ]

-- `getIndex`
unfoldable pub get_index : {A : Type 0} → (A → A → Bool) → List A → A → Value
unfolding index_of_item
get_index same xs arg = elim (index_of_item same xs arg) [ none ↦ bool false | some i ↦ num i ]

-- `clone`: past arrays, it reads `obj`, which is not declared, and throws.
unfoldable pub clone : Value → Option Value
clone (arr xs) = some (arr xs)
clone _ = none

unfoldable pub last : List Value → Value
last [] = undefined
last (x ∷ []) = x
last (x ∷ y ∷ xs) = last (y ∷ xs)

unfoldable pub first : List Value → Value
first [] = undefined
first (x ∷ xs) = x

-- `filter` on an array; the function also gets the index.
unfoldable pub filter : {A : Type 0} → (A → ℕ → Bool) → ℕ → List A → List A
filter f i [] = []
filter f i (x ∷ xs) = let rest = filter f (i + 1) xs in if f x i then x ∷ rest else rest

-- `filter` on an object, where the index stays 0.
unfoldable pub filter_fields : (Value → ℕ → Bool) → Fields → Fields
filter_fields f end = end
filter_fields f (field k v fs) =
    let rest = filter_fields f fs in if f v 0 then field k v rest else rest

-- `ret.concat.apply([], ret)`: what is an array is put in by its elements.
unfoldable pub splice_all : List Value → List Value
unfolding elements
splice_all [] = []
splice_all (arr xs ∷ vs) = elements xs ++ splice_all vs
splice_all (v ∷ vs) = v ∷ splice_all vs

-- The loop of `map`, which leaves out null.
unfoldable pub map_loop : (Value → ℕ → Value) → ℕ → List Value → List Value
map_loop f i [] = []
map_loop f i (x ∷ xs) =
    let rest = map_loop f (i + 1) xs in if is_null (f x i) then rest else f x i ∷ rest

unfoldable pub map_array : (Value → ℕ → Value) → List Value → List Value
unfolding map_loop splice_all
map_array f xs = splice_all (map_loop f 0 xs)

-- The loop of `grep` with an expression: it reads numbers as texts, and throws on what is neither.
-- `matches` is `match` with the expression, `shown` the text of a number.
unfoldable pub grep :
    (Text → Bool) → (ℕ → Text) → (Value → ℕ → Value) → ℕ → List Value → Option (List Value)
grep matches shown f i [] = some []
grep matches shown f i (num n ∷ xs) = elim (grep matches shown f (i + 1) xs) [
  | none ↦ none
  | some rest ↦ some (if matches (shown n) then f (text (shown n)) i ∷ rest else rest)
]
grep matches shown f i (text t ∷ xs) = elim (grep matches shown f (i + 1) xs) [
  | none ↦ none
  | some rest ↦ some (if matches t then f (text t) i ∷ rest else rest)
]
grep matches shown f i (x ∷ xs) = none

-- The count of `size` on an object.
unfoldable pub count_fields : Fields → ℕ
count_fields end = 0
count_fields (field k v fs) = (if is_null v then 0 else 1) + count_fields fs

unfoldable pub size : Value → ℕ
unfolding to_array
size (obj fs) = count_fields fs
size v = length (to_array v)

-- `val[prop]` of an element.
unfoldable pub read : Text → Value → Option Value
read prop undefined = none
read prop null = none
read prop (obj fs) = some (property prop fs)
read prop _ = some undefined

-- `pick`, for a property that no array, text or function has.
unfoldable pub pick : Text → List Value → Option (List Value)
pick prop [] = some []
pick prop (x ∷ xs) = elim (read prop x) [
  | none ↦ none
  | some v ↦ elim (pick prop xs) [ none ↦ none | some vs ↦ some (v ∷ vs) ]
]

-- What `_compact` collects in an array: neither arrays nor undefined, null and false.
unfoldable mutual
  pub compact_value : Value → List Value
  compact_value undefined = []
  compact_value null = []
  compact_value (bool false) = []
  compact_value (bool true) = bool true ∷ []
  compact_value (num n) = num n ∷ []
  compact_value (text t) = text t ∷ []
  compact_value (fn n) = fn n ∷ []
  compact_value (arr xs) = compact xs
  compact_value (obj fs) = if is_arr (obj fs) then compact_fields fs else obj fs ∷ []

  pub compact : Items → List Value
  compact nil = []
  compact (cons x xs) = compact_value x ++ compact xs

  pub compact_fields : Fields → List Value
  compact_fields end = []
  compact_fields (field k v fs) = compact_value v ++ compact_fields fs

-- `object.keys` and `object.values`, which leave out what is false as a condition.
unfoldable pub keys : Fields → List Text
keys end = []
keys (field k v fs) = if is_true v then k ∷ keys fs else keys fs

unfoldable pub values : Fields → List Value
values end = []
values (field k v fs) = if is_true v then v ∷ values fs else values fs

-- The loop of `extend` over the source's properties; `merge` is `array.merge` of two objects.
unfoldable pub is_object_type : Value → Bool
is_object_type (arr xs) = true
is_object_type (obj fs) = true
is_object_type null = true
is_object_type _ = false

unfoldable pub extended : (Value → Value → Value) → Value → Value → Value
unfolding is_object_type is_true
extended merge old new =
    if is_true old && (is_object_type new && is_object_type old) then merge old new else new

unfoldable pub extend : (Value → Value → Value) → Fields → Fields → Fields
unfolding is_null extended
extend merge target end = target
extend merge target (field k v fs) =
    extend merge
      (if not (is_null v) then assign k (extended merge (property k target) v) target else target)
      fs

-- `extend(obj, src)`; `none` is a target that is null.
unfoldable pub extend_value : (Value → Value → Value) → Option Fields → Fields → Fields
extend_value merge none src = src
extend_value merge (some target) src = extend merge target src
