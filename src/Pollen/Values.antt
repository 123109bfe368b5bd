-- ===== src/Pollen/Values.antt =====
-- The values that the functions of jquery.hive.pollen.js tell apart.
--
-- Numbers are natural. A function is known by its property `length`. The properties of an object
-- stand in the order in which a loop visits them, each key once, and none is inherited.
use joshlong_examples.Common.{
  ℕ, zero, suc, Bool, true, false, ◌||◌, List, [], ◌∷◌, if◌then◌else◌, nonempty, Text, text_eq,
}

mutual
  pub data Value : Type 0 where
    undefined null : Value
    bool : Bool → Value
    num : ℕ → Value
    text : Text → Value
    fn : ℕ → Value
    arr : Items → Value
    obj : Fields → Value

  pub data Items : Type 0 where
    nil : Items
    cons : Value → Items → Items

  pub data Fields : Type 0 where
    end : Fields
    field : Text → Value → Fields → Fields

unfoldable pub elements : Items → List Value
elements nil = []
elements (cons x xs) = x ∷ elements xs

unfoldable pub items : List Value → Items
items [] = nil
items (x ∷ xs) = cons x (items xs)

-- A value as a condition.
unfoldable pub is_true : Value → Bool
is_true undefined = false
is_true null = false
is_true (bool b) = b
is_true (num zero) = false
is_true (num (suc n)) = true
is_true (text t) = nonempty t
is_true (fn n) = true
is_true (arr xs) = true
is_true (obj fs) = true

unfoldable pub is_undefined : Value → Bool
is_undefined undefined = true
is_undefined _ = false

-- `obj[key]`
unfoldable pub property : Text → Fields → Value
property key end = undefined
property key (field k v fs) = let rest = property key fs in if text_eq k key then v else rest

-- `key in obj`
unfoldable pub has_key : Text → Fields → Bool
has_key key end = false
has_key key (field k v fs) = text_eq k key || has_key key fs

-- `obj[key] = value`
unfoldable pub assign : Text → Value → Fields → Fields
assign key value end = field key value end
assign key value (field k v fs) =
    let rest = assign key value fs in if text_eq k key then field k value fs else field k v rest
