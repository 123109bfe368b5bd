-- ===== src/Pollen/Combined.antt =====
-- What `combine` of jquery.hive.pollen.js returns.
use joshlong_examples.Common.{
  ℕ, suc, zero, ◌≡◌, refl, sym, ◌∙◌, arith, true, false, none, some, List, [], ◌∷◌, ◌==◌, length,
  get_or, get_elem?, Dict, insert, lookup, lookup-insert, member,
}
use joshlong_examples.Pollen.Arrays.{combine_loop, combine}

abbrev pub IsDistinct : List ℕ → Type 0
IsDistinct [] = true ≡ true
IsDistinct (x ∷ xs) = (member x xs ≡ false) × IsDistinct xs

combine_loop_other :
    {V : Type 0} (keys : List ℕ) (vals : List V) (ret : Dict V) (k : ℕ)
    → member k keys ≡ false
    → lookup k (combine_loop keys vals ret) ≡ lookup k ret
unfolding combine_loop
combine_loop_other [] vals ret k h = refl
combine_loop_other (key ∷ keys) [] ret k h = refl
combine_loop_other (key ∷ keys) (val ∷ vals) ret k h =
    let other : (key == k) ≡ false = ground arith in
    let rest : member k keys ≡ false = ground arith in
    combine_loop_other keys vals (insert key val ret) k rest
    ∙ lookup-insert key k val ret
    ∙ rw other refl

combine_loop_here :
    {V : Type 0} (keys : List ℕ) (vals : List V) (ret : Dict V) (i k : ℕ) (v : V)
    → IsDistinct keys
    → get_elem? keys i ≡ some k
    → get_elem? vals i ≡ some v
    → lookup k (combine_loop keys vals ret) ≡ some v
unfolding combine_loop
combine_loop_here [] vals ret i k v d hk hv = cc
combine_loop_here (key ∷ keys) [] ret i k v d hk hv = cc
combine_loop_here (key ∷ keys) (val ∷ vals) ret zero k v (fresh, d) hk hv =
    let same : key ≡ k = cc in
    let itself : (key == k) ≡ true = ground arith in
    combine_loop_other keys vals (insert key val ret) k (rw (sym same) fresh)
    ∙ lookup-insert key k val ret
    ∙ rw itself hv
combine_loop_here (key ∷ keys) (val ∷ vals) ret (suc i) k v (fresh, d) hk hv =
    combine_loop_here keys vals (insert key val ret) i k v d hk hv

-- `combine` of arrays of one length, where no key occurs twice, does not throw, and the object has the
-- value at an index under the key at that index, and nothing under a number that is no key.
combine_lem :
    {V : Type 0} (keys : List ℕ) (vals : List V) (i k other : ℕ) (v : V)
    → length keys ≡ length vals
    → IsDistinct keys
    → get_elem? keys i ≡ some k
    → get_elem? vals i ≡ some v
    → member other keys ≡ false
    → (combine keys vals ≡ some (get_or (combine keys vals) []))
      × (lookup k (get_or (combine keys vals) []) ≡ some v)
      × (lookup other (get_or (combine keys vals) []) ≡ none)
unfolding combine lookup
combine_lem keys vals i k other v same d hk hv absent =
    let equal : (length keys == length vals) ≡ true = ground arith in
    rw equal (
      refl,
      combine_loop_here keys vals [] i k v d hk hv,
      combine_loop_other keys vals [] other absent,
    )
