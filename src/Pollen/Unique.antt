-- ===== src/Pollen/Unique.antt =====
-- What `unique` and `merge` of jquery.hive.pollen.js keep.
use joshlong_examples.Common.{
  ◌≡◌, refl, ap, ◌∙◌, inl, inr, arith, Bool, true, false, not, ◌&&◌, ◌||◌, List, [], ◌∷◌, ◌++◌, map,
  Bool-cases, Text, text_eq, text_eq_iff,
}
use joshlong_examples.Pollen.Arrays.{in_arr, unique_loop, unique, concat_all, merge}

abbrev pub is_distinct : List Text → Bool
is_distinct [] = true
is_distinct (x ∷ xs) = not (in_arr xs x) && is_distinct xs

in_arr-snoc : (xs : List Text) (u t : Text) → in_arr (xs ++ u ∷ []) t ≡ (in_arr xs t || text_eq u t)
unfolding in_arr
in_arr-snoc [] u t = ground arith
in_arr-snoc (x ∷ xs) u t = ground (arith, in_arr-snoc xs u t)

in_arr-append : (xs ys : List Text) (t : Text) → in_arr (xs ++ ys) t ≡ (in_arr xs t || in_arr ys t)
unfolding in_arr
in_arr-append [] ys t = refl
in_arr-append (x ∷ xs) ys t = ground (arith, in_arr-append xs ys t)

text_eq_same :
    (cache : List Text) (u t : Text) → text_eq u t ≡ true → in_arr cache u ≡ in_arr cache t
text_eq_same cache u t h = ap (in_arr cache) ((text_eq_iff u t).0 h)

in_arr-unique_loop :
    {A : Type 0} (stringify : A → Text) (xs : List A) (cache : List Text) (t : Text)
    → in_arr (map stringify (unique_loop stringify xs cache)) t
      ≡ (in_arr (map stringify xs) t && not (in_arr cache t))
unfolding in_arr unique_loop
in_arr-unique_loop stringify [] cache t = refl
in_arr-unique_loop stringify (x ∷ xs) cache t = elim (Bool-cases (in_arr cache (stringify x))) [
  | inl k ↦
      rw k (
        ground (arith, in_arr-unique_loop stringify xs cache t, text_eq_same cache (stringify x) t))
  | inr n ↦ rw n (
      ground (
        arith,
        in_arr-unique_loop stringify xs (cache ++ stringify x ∷ []) t,
        in_arr-snoc cache (stringify x) t,
        text_eq_same cache (stringify x) t,
      ))
]

is_distinct-unique_loop :
    {A : Type 0} (stringify : A → Text) (xs : List A) (cache : List Text)
    → is_distinct (map stringify (unique_loop stringify xs cache)) ≡ true
unfolding unique_loop
is_distinct-unique_loop stringify [] cache = refl
is_distinct-unique_loop stringify (x ∷ xs) cache = elim (Bool-cases (in_arr cache (stringify x))) [
  | inl k ↦ rw k (is_distinct-unique_loop stringify xs cache)
  | inr n ↦
      let itself : text_eq (stringify x) (stringify x) ≡ true =
        (text_eq_iff (stringify x) (stringify x)).1 refl in
      rw n (
        ground (
          arith,
          is_distinct-unique_loop stringify xs (cache ++ stringify x ∷ []),
          in_arr-unique_loop stringify xs (cache ++ stringify x ∷ []) (stringify x),
          in_arr-snoc cache (stringify x) (stringify x),
        ))
]

-- `unique` keeps no two elements of the same text, and the texts of what it keeps are those of the
-- array.
unique_lem :
    {A : Type 0} (stringify : A → Text) (arr : List A) (t : Text)
    → (is_distinct (map stringify (unique stringify arr)) ≡ true)
      × (in_arr (map stringify (unique stringify arr)) t ≡ in_arr (map stringify arr) t)
unfolding unique in_arr
unique_lem stringify arr t =
    (is_distinct-unique_loop stringify arr [], in_arr-unique_loop stringify arr [] t ∙ ground arith)

abbrev pub in_any : {A : Type 0} → (A → Text) → List (List A) → Text → Bool
in_any stringify [] t = false
in_any stringify (arr ∷ arrs) t = in_arr (map stringify arr) t || in_any stringify arrs t

in_arr-concat_all :
    {A : Type 0} (stringify : A → Text) (arr : List A) (arrs : List (List A)) (t : Text)
    → in_arr (map stringify (concat_all arr arrs)) t
      ≡ (in_arr (map stringify arr) t || in_any stringify arrs t)
unfolding concat_all
in_arr-concat_all stringify arr [] t = ground arith
in_arr-concat_all stringify arr (more ∷ arrs) t = ground (
  arith,
  in_arr-concat_all stringify (arr ++ more) arrs t,
  ap (λ l. in_arr l t) (map-append stringify arr more),
  in_arr-append (map stringify arr) (map stringify more) t,
)
  where
    map-append :
        {A : Type 0} (f : A → Text) (xs ys : List A) → map f (xs ++ ys) ≡ map f xs ++ map f ys
    map-append f [] ys = refl
    map-append f (x ∷ xs) ys = ap (◌∷◌ (f x)) (map-append f xs ys)

-- `merge` of arrays has no two elements of the same text, and a text in it is one of the first array
-- or of a further one.
pub merge_lem :
    {A : Type 0} (stringify : A → Text) (arr : List A) (arrs : List (List A)) (t : Text)
    → (is_distinct (map stringify (merge stringify arr arrs)) ≡ true)
      × (in_arr (map stringify (merge stringify arr arrs)) t
          ≡ (in_arr (map stringify arr) t || in_any stringify arrs t))
unfolding merge
merge_lem stringify arr arrs t =
    let (distinct, same) = unique_lem stringify (concat_all arr arrs) t in
    (distinct, same ∙ in_arr-concat_all stringify arr arrs t)
