-- ===== src/Pollen/Compacted.antt =====
-- What `compact` and `extend` of jquery.hive.pollen.js leave.
use joshlong_examples.Common.{
  ◌≡◌, refl, ap, ◌∙◌, inl, inr, arith, Bool, true, false, not, ◌&&◌, List, if◌then◌else◌,
  Bool-cases, Text, text_eq, text_eq_iff, All, All-append,
}
use joshlong_examples.Pollen.Values.{
  Value, undefined, null, bool, num, text, fn, arr, obj, Items, nil, cons, Fields, end, field,
  property, has_key, assign,
}
use joshlong_examples.Pollen.Evaluate.{is_arr, is_null}
use joshlong_examples.Pollen.Lists.{compact_value, compact, compact_fields, extended, extend}

abbrev pub is_kept : Value → Bool
is_kept undefined = false
is_kept null = false
is_kept (bool b) = b
is_kept (num n) = true
is_kept (text t) = true
is_kept (fn n) = true
is_kept (arr xs) = false
is_kept (obj fs) = not (is_arr (obj fs))

abbrev pub AllKept : List Value → Type 0
AllKept vs = All (λ v. is_kept v ≡ true) vs

mutual
  unfolding compact_value compact compact_fields

  compact_value-AllKept : (v : Value) → AllKept (compact_value v)
  compact_value-AllKept undefined = tt
  compact_value-AllKept null = tt
  compact_value-AllKept (bool false) = tt
  compact_value-AllKept (bool true) = (refl, tt)
  compact_value-AllKept (num n) = (refl, tt)
  compact_value-AllKept (text t) = (refl, tt)
  compact_value-AllKept (fn n) = (refl, tt)
  compact_value-AllKept (arr xs) = compact_items-AllKept xs
  compact_value-AllKept (obj fs) = elim (Bool-cases (is_arr (obj fs))) [
    | inl t ↦ rw t (compact_fields-AllKept fs)
    | inr n ↦ rw n (rw n refl, tt)
  ]

  compact_items-AllKept : (xs : Items) → AllKept (compact xs)
  compact_items-AllKept nil = tt
  compact_items-AllKept (cons x xs) =
      All-append (λ v. is_kept v ≡ true) (compact_value x) (compact xs) (compact_value-AllKept x)
        (compact_items-AllKept xs)

  compact_fields-AllKept : (fs : Fields) → AllKept (compact_fields fs)
  compact_fields-AllKept end = tt
  compact_fields-AllKept (field k v fs) =
      All-append (λ w. is_kept w ≡ true) (compact_value v) (compact_fields fs)
        (compact_value-AllKept v) (compact_fields-AllKept fs)

-- `compact` of an array, however deep arrays stand in it, has no element that is undefined, null or
-- false, and none that is an array.
pub compact-AllKept : (xs : Items) → AllKept (compact xs)
compact-AllKept xs = compact_items-AllKept xs

-- No key occurs twice.
abbrev pub has_distinct_keys : Fields → Bool
has_distinct_keys end = true
has_distinct_keys (field k v fs) = not (has_key k fs) && has_distinct_keys fs

pub property-assign :
    (key other : Text) (value : Value) (fs : Fields)
    → property other (assign key value fs)
      ≡ (if text_eq key other then value else property other fs)
unfolding property assign
property-assign key other value end = refl
property-assign key other value (field k v fs) = ground (
  arith,
  property-assign key other value fs,
  text_eq_iff k key,
  text_eq_iff k other,
  text_eq_iff key other,
)

extend_absent :
    (merge : Value → Value → Value) (target src : Fields) (key : Text)
    → has_key key src ≡ false
    → property key (extend merge target src) ≡ property key target
unfolding extend has_key
extend_absent merge target end key h = refl
extend_absent merge target (field k v fs) key h =
    let absent : has_key key fs ≡ false = ground arith in
    let other : text_eq k key ≡ false = ground arith in
    elim (Bool-cases (is_null v)) [
      | inl t ↦ rw t (extend_absent merge target fs key absent)
      | inr n ↦ rw n (
          extend_absent merge (assign k (extended merge (property k target) v) target) fs key absent
          ∙ property-assign k key (extended merge (property k target) v) target
          ∙ rw other refl)
    ]

-- `extend` with a source in which no key occurs twice: under a key of the source that is not null
-- there, the source's value, or the merged one where both are objects; under any other key of the
-- target, the target's.
pub property-extend :
    (merge : Value → Value → Value) (target src : Fields) (key : Text)
    → has_distinct_keys src ≡ true
    → property key (extend merge target src) ≡ (
        if has_key key src && not (is_null (property key src))
        then extended merge (property key target) (property key src)
        else property key target)
unfolding extend has_key property
property-extend merge target end key h = refl
property-extend merge target (field k v fs) key h = elim (Bool-cases (text_eq k key)) [
  | inl t ↦
      let e : k ≡ key = (text_eq_iff k key).0 t in
      let fresh : has_key k fs ≡ false = ground arith in
      let absent : has_key key fs ≡ false = rw e at fresh in
      elim (Bool-cases (is_null v)) [
        | inl z ↦ rw (t, z) (extend_absent merge target fs key absent)
        | inr n ↦
            rw (t, n)
              (extend_absent merge (assign k (extended merge (property k target) v) target) fs key
                  absent
                ∙ property-assign k key (extended merge (property k target) v) target
                ∙ rw t (ap (λ w. extended merge (property w target) v) e))
      ]
  | inr f ↦
      let rest : has_distinct_keys fs ≡ true = ground arith in
      let kept = property-assign k key (extended merge (property k target) v) target in
      elim (Bool-cases (is_null v)) [
        | inl z ↦ rw (f, z) (property-extend merge target fs key rest)
        | inr n ↦
            let same : property key (assign k (extended merge (property k target) v) target)
                ≡ property key target =
              kept ∙ rw f refl in
            let ih =
              property-extend merge (assign k (extended merge (property k target) v) target) fs key
                rest in
            rw (f, n) (rw same at ih)
      ]
]
