-- ===== src/Form/Requests.antt =====
-- What `ajaxSubmit` of jquery.form.js sends.
use joshlong_examples.Common.{
  ◌≡◌, ◌≢◌, ◌⊎◌, refl, ap, inl, inr, arith, true, false, none, some, List, [], ◌∷◌, ◌++◌,
  Bool-cases, Text, nonempty, JQuery, ◌==◌,
}
use joshlong_examples.Form.Fields.{Element, Pair, form_to_array}
use joshlong_examples.Form.Submit.{
  before_hash, has, SubmitOptions, Argument, options_of, Draft, Hooks, Page, ajax, Request,
  default_url, Datum, datum_pairs, is_get, add_query, any_file, mode_of, draft,
}

-- The pairs of `options.data`, one entry after the other.
abbrev pub extra_pairs : List (Text × Datum) → List Pair
extra_pairs [] = []
extra_pairs ((n, d) ∷ ds) = datum_pairs n d ++ extra_pairs ds

-- A file that was chosen is never sent by a plain request: whatever the option `iframe` says, the
-- form goes through a frame.
mode_of-file :
    (o : SubmitOptions) (files : List Text) → any_file files ≡ true → mode_of o files ≢ ajax
unfolding mode_of
mode_of-file o files h = ground arith

module _ (jq : JQuery) (trim : Text → Text) (param : List Pair → Text) (val : Element → Text)
    (h : Hooks) where
  -- The draft before the array is made, and as the two later hooks get it and leave it.
  abbrev pub prepared : Argument → Page → Draft
  prepared a p = (h.before_serialize (h.pre_serialize (draft jq trim (options_of a) p)).1).1

  abbrev pub gathered : Argument → Page → Draft
  gathered a p =
      let d = prepared a p in
      record d {
        pairs = form_to_array val d.options.semantic d.page.form ++ extra_pairs d.options.fields;
      }

  abbrev pub last : Argument → Page → Draft
  last a p = (h.validate (h.before_submit (gathered a p)).1).1

  abbrev pub Carries : Draft → Request → Type 0
  Carries d r =
      (r.type ≡ d.type)
      × (((is_get d.type ≡ true) × (r.url ≡ add_query d.url (param d.pairs)) × (r.body ≡ none))
          ⊎ ((is_get d.type ≡ false) × (r.url ≡ d.url) × (r.body ≡ some (param d.pairs))))

before_hash-no-hash : (u : Text) → has b'#' (before_hash u) ≡ false
unfolding before_hash has
before_hash-no-hash [] = refl
before_hash-no-hash (c ∷ u) = ground (arith, before_hash-no-hash u)

before_hash_prefix : (u : Text) → (rest : Text) × (before_hash u ++ rest ≡ u)
unfolding before_hash
before_hash_prefix [] = ([], refl)
before_hash_prefix (c ∷ u) = elim (Bool-cases (c == b'#')) [
  | inl t ↦ (c ∷ u, rw t)
  | inr f ↦ let (rest, e) = before_hash_prefix u in (rest, rw f (ap (λ l. c ∷ l) e))
]

-- The url taken from the form's `action` is its longest beginning without a `#`; where that is
-- empty, it is the page's own address.
default_url_lem :
    (trim : Text → Text) (p : Page)
    → ((rest : Text) × (default_url trim p ++ rest ≡ trim p.action)
        × (has b'#' (default_url trim p) ≡ false))
      ⊎ ((before_hash (trim p.action) ≡ []) × (default_url trim p ≡ p.href))
unfolding default_url
default_url_lem trim p = elim (Bool-cases (nonempty (before_hash (trim p.action)))) [
  | inl t ↦
      let (rest, e) = before_hash_prefix (trim p.action) in
      inl (rest, rw t e, rw t (before_hash-no-hash (trim p.action)))
  | inr f ↦ inr (ground arith, rw f)
]
