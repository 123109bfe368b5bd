-- ===== src/Pollen/Trimmed.antt =====
-- What `trim` of jquery.hive.pollen.js removes.
use joshlong_examples.Common.{
  ◌≡◌, refl, ap, ◌∙◌, arith, Bool, true, false, not, some, [], ◌∷◌, ◌++◌, by_cases, ℕ, Text,
}
use joshlong_examples.Pollen.Strings.{is_space, trim_left, all_space, trim_right, trim}

-- Whether a text begins, and whether it ends, with something that is no white space, or is empty.
abbrev pub begins_bare : Text → Bool
begins_bare [] = true
begins_bare (c ∷ cs) = not (is_space c)

abbrev pub ends_bare : Text → Bool
ends_bare [] = true
ends_bare (c ∷ []) = not (is_space c)
ends_bare (c ∷ d ∷ cs) = ends_bare (d ∷ cs)

trim_left-split :
    (t : Text)
    → (l : Text) × (t ≡ l ++ trim_left t)
      × (all_space l ≡ true)
      × (begins_bare (trim_left t) ≡ true)
unfolding trim_left all_space
trim_left-split [] = ([], refl, refl, refl)
trim_left-split (c ∷ cs) =
    let (l, split, blank, bare) = trim_left-split cs in
    by_cases (λ t. (l : Text) × (c ∷ cs ≡ l ++ t) × (all_space l ≡ true) × (begins_bare t ≡ true))
      (is_space c) _ _ (λ e. (c ∷ l, ap (◌∷◌ c) split, ground arith, bare))
      (λ e. ([], refl, refl, ground arith))

trim_right-split : (t : Text) → (r : Text) × (t ≡ trim_right t ++ r) × (all_space r ≡ true)
unfolding trim_right all_space
trim_right-split [] = ([], refl, refl)
trim_right-split (c ∷ cs) =
    let (r, split, blank) = trim_right-split cs in
    by_cases (λ t. (r : Text) × (c ∷ cs ≡ t ++ r) × (all_space r ≡ true)) (all_space (c ∷ cs)) _ _
      (λ e. (c ∷ cs, refl, e)) (λ _. (r, ap (◌∷◌ c) split, blank))

trim_right-nil : (t : Text) → trim_right t ≡ [] → all_space t ≡ true
unfolding trim_right all_space
trim_right-nil [] h = refl
trim_right-nil (c ∷ cs) h =
    by_cases (λ t. t ≡ [] → all_space (c ∷ cs) ≡ true) (all_space (c ∷ cs)) _ _ (λ e _. e)
      (λ _ k. absurd (cc)) h

ends_bare-cons :
    (c : ℕ) (u : Text)
    → (u ≡ [] → is_space c ≡ false)
    → ends_bare u ≡ true
    → ends_bare (c ∷ u) ≡ true
ends_bare-cons c [] last h = ap not (last refl)
ends_bare-cons c (d ∷ u) last h = h

ends_bare-trim_right : (t : Text) → ends_bare (trim_right t) ≡ true
unfolding trim_right all_space
ends_bare-trim_right [] = refl
ends_bare-trim_right (c ∷ cs) =
    by_cases (λ t. ends_bare t ≡ true) (all_space (c ∷ cs)) _ _ (λ _. refl)
      (λ some_bare.
        ends_bare-cons c (trim_right cs)
          (λ none_left. let blank = trim_right-nil cs none_left in ground arith)
          (ends_bare-trim_right cs))

begins_bare-trim_right : (t : Text) → begins_bare t ≡ true → begins_bare (trim_right t) ≡ true
unfolding trim_right
begins_bare-trim_right [] h = refl
begins_bare-trim_right (c ∷ cs) h =
    by_cases (λ t. begins_bare t ≡ true) (all_space (c ∷ cs)) _ _ (λ _. refl) (λ _. h)

-- `trim` removes white space at both ends, nothing else, and all of it: a text is what `trim` returns
-- between two runs of white space, and that neither begins nor ends with any.
pub trim_lem :
    (t : Text)
    → (l r : Text) × (t ≡ l ++ (trim (some t) ++ r))
      × (all_space l ≡ true)
      × (all_space r ≡ true)
      × (begins_bare (trim (some t)) ≡ true)
      × (ends_bare (trim (some t)) ≡ true)
unfolding trim
trim_lem t =
    let (l, left, blank, bare) = trim_left-split t in
    let (r, right, blank') = trim_right-split (trim_left t) in
    (
      l,
      r,
      left ∙ ap (λ u. l ++ u) right,
      blank,
      blank',
      begins_bare-trim_right (trim_left t) bare,
      ends_bare-trim_right (trim_left t),
    )
