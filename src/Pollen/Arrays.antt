-- ===== src/Pollen/Arrays.antt =====
-- jquery.hive.pollen.js, `array`: `inArr`, `unique`, `merge` and `combine` on arrays.
--
-- `JSON.stringify` is a parameter, `stringify`. Objects and arguments that are no arrays are not
-- modelled. The keys of `combine` are numbers.
use joshlong_examples.Common.{
  ℕ, Bool, false, not, ◌||◌, Option, none, some, List, [], ◌∷◌, ◌++◌, ◌==◌, if◌then◌else◌, length,
  Text, text_eq, Dict, insert,
}

-- `inArr(arr, arg)` on strings.
unfoldable pub in_arr : List Text → Text → Bool
in_arr [] arg = false
in_arr (x ∷ xs) arg = text_eq x arg || in_arr xs arg

-- What the loop of `unique` pushes from an element on, with the cache that it has there.
unfoldable pub unique_loop : {A : Type 0} → (A → Text) → List A → List Text → List A
unique_loop stringify [] cache = []
unique_loop stringify (x ∷ xs) cache =
    let known = in_arr cache (stringify x) in
    let rest = unique_loop stringify xs (if known then cache else cache ++ stringify x ∷ []) in
    if known then rest else x ∷ rest

unfoldable pub unique : {A : Type 0} → (A → Text) → List A → List A
unique stringify arr = unique_loop stringify arr []

-- The loop of `merge` over the further arguments.
unfoldable pub concat_all : {A : Type 0} → List A → List (List A) → List A
concat_all merged [] = merged
concat_all merged (arr ∷ arrs) = concat_all (merged ++ arr) arrs

unfoldable pub merge : {A : Type 0} → (A → Text) → List A → List (List A) → List A
merge stringify arr arrs = unique stringify (concat_all arr arrs)

-- The loop of `combine`; the arrays have one length.
unfoldable pub combine_loop : {V : Type 0} → List ℕ → List V → Dict V → Dict V
combine_loop [] vals ret = ret
combine_loop (key ∷ keys) [] ret = ret
combine_loop (key ∷ keys) (val ∷ vals) ret = combine_loop keys vals (insert key val ret)

-- `combine(arrkeys, arrvals)`; `none` is the exception.
unfoldable pub combine : {V : Type 0} → List ℕ → List V → Option (Dict V)
combine keys vals =
    if not (length keys == length vals) then none else some (combine_loop keys vals [])
