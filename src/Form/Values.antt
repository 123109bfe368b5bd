-- ===== src/Form/Values.antt =====
-- What jquery.form.js reads from select elements and from whole forms.
use mathlib.Core.List.{Memᴰ, map-append}
use joshlong_examples.Common.{
  ℕ, ◌≡◌, refl, sym, ap, ◌∙◌, inl, inr, arith, Bool, true, false, Option, some, List, [], ◌∷◌, ◌++◌,
  map, append-nil, append_assoc, ==_refl, if◌then◌else◌, Bool-cases, get_elem?, keep, All,
  All-append, All-map, take-length, drop-take-suc, nonempty, Text, JQuery,
}
use joshlong_examples.Form.Fields.{
  select, OptionElement, Element, Form, Value, null, undefined, one, many, string, Pair, is_image,
  is_tick, is_select_one, is_clicked, is_skipped, option_value, select_loop, select_value,
  field_value, add_value, field_values, text_pair, value_pairs, image_pairs, element_pairs, collect,
  click_pairs, form_to_array, field_pairs,
}
use joshlong_examples.Form.Successful.{
  IsSuccessful, is_skipped_of, field_value_skipped, field_value_select, off-is_skipped,
  disabled-is_skipped,
}

select_loop_multiple :
    (ops : List OptionElement) (a : List Text)
    → select_loop false ops a ≡ many (a ++ map option_value (keep (λ op. op.selected) ops))
unfolding select_loop
select_loop_multiple [] a = rw (append-nil a)
select_loop_multiple (op ∷ ops) a = elim (Bool-cases op.selected) [
  | inl t ↦ simp (t, select_loop_multiple ops (a ++ option_value op ∷ []), append_assoc)
  | inr f ↦ simp (f, select_loop_multiple ops a)
]

-- The value of a successful select element that allows several choices is the list of the values of
-- its selected options, in the order of the options.
field_value_multiple :
    (clk : Option Element) (el : Element)
    → IsSuccessful clk el
    → el.tag ≡ select
    → is_select_one el.type ≡ false
    → field_value clk el (some true) ≡ many (map option_value (keep (λ op. op.selected) el.options))
unfolding select_value
field_value_multiple clk el v e m =
    let (i, chosen) = v.chosen e in
    rw (field_value_select clk el v e, chosen, m, select_value)
      (simp (take-length, select_loop_multiple el.options []))

-- The value of a successful select element with a single choice is the value of the option at its
-- selected index, where that option is selected.
pub field_value_single :
    (clk : Option Element) (el : Element) (i : ℕ) (op : OptionElement)
    → IsSuccessful clk el
    → el.tag ≡ select
    → is_select_one el.type ≡ true
    → el.selected_index ≡ some i
    → get_elem? el.options i ≡ some op
    → op.selected ≡ true
    → field_value clk el (some true) ≡ one (option_value op)
unfolding select_value select_loop
field_value_single clk el i op v e m chosen at on =
    rw (field_value_select clk el v e, chosen, m, select_value)
      (simp (drop-take-suc i el.options at, on))

-- The texts of a value.
abbrev pub texts : Value → List Text
texts null = []
texts undefined = []
texts (one v) = v ∷ []
texts (many vs) = vs

-- The values of a list of elements, one after the other.
abbrev pub all_texts : Option Element → Option Bool → List Element → List Text
all_texts clk successful [] = []
all_texts clk successful (el ∷ els) =
    texts (field_value clk el successful) ++ all_texts clk successful els

add_value_lem : (jq : JQuery) (v : Value) (val : List Text) → add_value jq v val ≡ val ++ texts v
unfolding add_value
add_value_lem jq null val = sym (append-nil val)
add_value_lem jq undefined val = sym (append-nil val)
add_value_lem jq (one v) val = refl
add_value_lem jq (many []) val = sym (append-nil val)
add_value_lem jq (many (v ∷ vs)) val = jq.merge_lem Text val (v ∷ vs)

field_values_lem :
    (jq : JQuery) (clk : Option Element) (successful : Option Bool) (els : List Element)
    (val : List Text)
    → field_values jq clk successful els val ≡ val ++ all_texts clk successful els
unfolding field_values
field_values_lem jq clk successful [] val = sym (append-nil val)
field_values_lem jq clk successful (el ∷ els) val =
    let v = field_value clk el successful in
    rw (
      field_values_lem jq clk successful els (add_value jq v val),
      add_value_lem jq v val,
      append_assoc,
    )

value_pairs_lem : (n : Text) (v : Value) → value_pairs n v ≡ map (text_pair n) (texts v)
unfolding value_pairs
value_pairs_lem n null = refl
value_pairs_lem n undefined = refl
value_pairs_lem n (one v) = refl
value_pairs_lem n (many vs) = refl

entries_of :
    (n : Text) (vs : List Text) → map (λ (p : Pair). p.value) (map (text_pair n) vs) ≡ map string vs
unfolding text_pair
entries_of n [] = refl
entries_of n (v ∷ vs) = rw (entries_of n vs)

-- The pairs of a list of elements, one element after the other; elements with no name have none.
abbrev pub named_pairs : Option Element → Option Bool → List Element → List Pair
named_pairs clk successful [] = []
named_pairs clk successful (el ∷ els) =
    (if nonempty el.name then value_pairs el.name (field_value clk el successful) else [])
    ++ named_pairs clk successful els

field_pairs_lem :
    (clk : Option Element) (successful : Option Bool) (els : List Element) (a : List Pair)
    → field_pairs clk successful els a ≡ a ++ named_pairs clk successful els
unfolding field_pairs
field_pairs_lem clk successful [] a = sym (append-nil a)
field_pairs_lem clk successful (el ∷ els) a = elim (Bool-cases (nonempty el.name)) [
  | inl t ↦ simp (t, field_pairs_lem clk successful els, append_assoc)
  | inr f ↦ simp (f, field_pairs_lem clk successful els a)
]

-- For elements with names, `fieldSerialize` hands to jQuery exactly the values that `fieldValue`
-- returns for the same elements, in the same order, one pair for each.
field_pairs-field_values :
    (jq : JQuery) (clk : Option Element) (successful : Option Bool) (els : List Element)
    → All (λ el. nonempty el.name ≡ true) els
    → map (λ (p : Pair). p.value) (field_pairs clk successful els [])
      ≡ map string (field_values jq clk successful els [])
field_pairs-field_values jq clk successful els h =
    rw (field_pairs_lem clk successful els [], field_values_lem jq clk successful els [])
      (same els h)
  where
    same :
        (es : List Element)
        → All (λ el. nonempty el.name ≡ true) es
        → map (λ (p : Pair). p.value) (named_pairs clk successful es)
          ≡ map string (all_texts clk successful es)
    same [] h = refl
    same (el ∷ es) h = simp (
      h.0,
      map-append,
      value_pairs_lem el.name (field_value clk el successful),
      entries_of,
      same es h.1,
    )

-- `fieldValue` on check boxes and radio buttons that are all off is the empty array, whatever else
-- they are: it is never undefined.
field_values-off :
    (jq : JQuery) (clk : Option Element) (els : List Element)
    → All (λ el. (is_tick el.type ≡ true) × (el.checked ≡ false)) els
    → field_values jq clk (some true) els [] ≡ []
field_values-off jq clk els h = field_values_lem jq clk (some true) els [] ∙ off els h
  where
    off :
        (es : List Element)
        → All (λ el. (is_tick el.type ≡ true) × (el.checked ≡ false)) es
        → all_texts clk (some true) es ≡ []
    off [] h = refl
    off (el ∷ es) h =
        simp (field_value_skipped clk el (off-is_skipped clk el h.0.0 h.0.1), off es h.1)

-- What the loop of `formToArray` collects, one element after the other.
abbrev pub loop_pairs : (Element → Text) → Bool → Form → List Element → List Pair
loop_pairs val semantic f [] = []
loop_pairs val semantic f (el ∷ els) =
    element_pairs val semantic f el ++ loop_pairs val semantic f els

collect_lem :
    (val : Element → Text) (semantic : Bool) (f : Form) (els : List Element) (a : List Pair)
    → collect val semantic f els a ≡ a ++ loop_pairs val semantic f els
unfolding collect
collect_lem val semantic f [] a = sym (append-nil a)
collect_lem val semantic f (el ∷ els) a =
    rw (collect_lem val semantic f els (a ++ element_pairs val semantic f el), append_assoc)

loop_pairs-append :
    (val : Element → Text) (semantic : Bool) (f : Form) (xs ys : List Element)
    → loop_pairs val semantic f (xs ++ ys)
      ≡ loop_pairs val semantic f xs ++ loop_pairs val semantic f ys
loop_pairs-append val semantic f [] ys = refl
loop_pairs-append val semantic f (x ∷ xs) ys =
    simp (loop_pairs-append val semantic f xs ys, append_assoc)

-- Away from images, the two modes of `formToArray` read the same of an element.
element_pairs_plain :
    (val : Element → Text) (f : Form) (el : Element)
    → is_image el.type ≡ false
    → element_pairs val true f el ≡ element_pairs val false f el
unfolding element_pairs
element_pairs_plain val f el h = ground arith

element_pairs_clicked :
    (val : Element → Text) (f : Form) (el : Element)
    → f.clk ≡ some el
    → (is_image el.type ≡ true) × (nonempty el.name ≡ true) × (el.disabled ≡ false)
    → element_pairs val true f el ≡ image_pairs val f el
unfolding element_pairs is_clicked
element_pairs_clicked val f el c p =
    let (i, n, d) = p in let self = ==_refl el.ref in simp (c, i, n, d, self)

click_pairs_semantic : (val : Element → Text) (f : Form) → click_pairs val true f ≡ []
unfolding click_pairs
click_pairs_semantic val f = ground arith

click_pairs_plain :
    (val : Element → Text) (f : Form) (el : Element)
    → f.clk ≡ some el
    → (is_image el.type ≡ true) × (nonempty el.name ≡ true) × (el.disabled ≡ false)
    → click_pairs val false f ≡ image_pairs val f el
unfolding click_pairs
click_pairs_plain val f el c p = let (i, n, d) = p in ground arith

form_to_array_lem :
    (val : Element → Text) (semantic : Bool) (f : Form) (els : List Element)
    → (if semantic then f.descendants else f.elements) ≡ some els
    → form_to_array val semantic (some f)
      ≡ loop_pairs val semantic f els ++ click_pairs val semantic f
unfolding form_to_array
form_to_array_lem val semantic f els h =
    rw (h, form_to_array)
      (ap (λ l. l ++ click_pairs val semantic f) (collect_lem val semantic f els []))

loop_pairs_plain :
    (val : Element → Text) (f : Form) (els : List Element)
    → All (λ el. is_image el.type ≡ false) els
    → loop_pairs val true f els ≡ loop_pairs val false f els
loop_pairs_plain val f [] h = refl
loop_pairs_plain val f (el ∷ els) h =
    rw (element_pairs_plain val f el h.0, loop_pairs_plain val f els h.1)

-- Let an image with a name that is enabled be the control that was clicked, among elements that are
-- no images. In the semantic mode, `formToArray` gives the three pairs of the image (its value and
-- the two coordinates of the click) at the place of the image in the document, and in the plain
-- mode, where the browser does not list images, after all the others. Else the two modes give the
-- same pairs in the same order.
pub form_to_array_modes :
    (val : Element → Text) (f : Form) (before after : List Element) (el : Element)
    → f.clk ≡ some el
    → (is_image el.type ≡ true) × (nonempty el.name ≡ true) × (el.disabled ≡ false)
    → All (λ e. is_image e.type ≡ false) before
    → All (λ e. is_image e.type ≡ false) after
    → f.elements ≡ some (before ++ after)
    → f.descendants ≡ some (before ++ el ∷ after)
    → (form_to_array val true (some f)
        ≡ loop_pairs val false f before ++ image_pairs val f el ++ loop_pairs val false f after)
      × (form_to_array val false (some f)
          ≡ (loop_pairs val false f before ++ loop_pairs val false f after) ++ image_pairs val f el)
form_to_array_modes val f before after el c p b a listed all =
    let outer = loop_pairs_plain val f before b in
    let inner = loop_pairs_plain val f after a in
    (
      form_to_array_lem val true f (before ++ el ∷ after) all
          ∙ simp (
            loop_pairs-append,
            element_pairs_clicked val f el c p,
            outer,
            inner,
            click_pairs_semantic,
            append-nil,
            append_assoc,
          ),
      form_to_array_lem val false f (before ++ after) listed
          ∙ simp (loop_pairs-append, click_pairs_plain val f el c p),
    )

map-named : (n : Text) (vs : List Text) → All (λ (p : Pair). p.name ≡ n) (map (text_pair n) vs)
unfolding text_pair
map-named n [] = tt
map-named n (v ∷ vs) = (refl, map-named n vs)

value_pairs-named : (n : Text) (v : Value) → All (λ (p : Pair). p.name ≡ n) (value_pairs n v)
value_pairs-named n v = rw (value_pairs_lem n v) (map-named n (texts v))

element_pairs_skipped :
    (val : Element → Text) (f : Form) (el : Element)
    → is_skipped f.clk el ≡ true
    → element_pairs val false f el ≡ []
unfolding element_pairs value_pairs
element_pairs_skipped val f el h = let e = field_value_skipped f.clk el h in ground arith

element_pairs_kept :
    (val : Element → Text) (f : Form) (el : Element)
    → nonempty el.name ≡ true
    → element_pairs val false f el ≡ value_pairs el.name (field_value f.clk el (some true))
unfolding element_pairs
element_pairs_kept val f el h = ground arith

abbrev pub FromField : Option Element → List Element → Pair → Type 0
FromField clk els p = (el : Element) × Memᴰ el els × IsSuccessful clk el × (p.name ≡ el.name)

element_pairs-FromField :
    (val : Element → Text) (f : Form) (els : List Element) (el : Element)
    → Memᴰ el els
    → All (FromField f.clk els) (element_pairs val false f el)
element_pairs-FromField val f els el m = elim (Bool-cases (is_skipped f.clk el)) [
  | inl t ↦ rw (element_pairs_skipped val f el t) tt
  | inr k ↦
      let v = is_skipped_of f.clk el k in
      rw (element_pairs_kept val f el v.named) (
        All-map (λ (p : Pair). p.name ≡ el.name) (FromField f.clk els) (λ p e. (el, m, v, e))
          (value_pairs el.name (field_value f.clk el (some true)))
          (value_pairs-named el.name (field_value f.clk el (some true))))
]

loop_pairs-FromField :
    (val : Element → Text) (f : Form) (els es : List Element)
    → ((el : Element) → Memᴰ el es → Memᴰ el els)
    → All (FromField f.clk els) (loop_pairs val false f es)
loop_pairs-FromField val f els [] sub = tt
loop_pairs-FromField val f els (el ∷ es) sub =
    All-append (FromField f.clk els) (element_pairs val false f el) _
      (element_pairs-FromField val f els el (sub el (Memᴰ.head refl)))
      (loop_pairs-FromField val f els es (λ e m. sub e (Memᴰ.tail m)))

-- Every pair that `formToArray` gives for a form in the plain mode, where no image was clicked, has
-- the name of one of the form's elements, and that element is a successful control of HTML 4.
pub form_to_array-FromField :
    (val : Element → Text) (f : Form) (els : List Element)
    → f.elements ≡ some els
    → click_pairs val false f ≡ []
    → All (FromField f.clk els) (form_to_array val false (some f))
form_to_array-FromField val f els listed clicks =
    rw (form_to_array_lem val false f els listed, clicks, append-nil)
      (loop_pairs-FromField val f els els (λ el m. m))

loop_pairs_disabled :
    (val : Element → Text) (f : Form) (els : List Element)
    → All (λ el. el.disabled ≡ true) els
    → loop_pairs val false f els ≡ []
loop_pairs_disabled val f [] h = refl
loop_pairs_disabled val f (el ∷ els) h = rw (
  element_pairs_skipped val f el (disabled-is_skipped f.clk el h.0),
  loop_pairs_disabled val f els h.1,
)

-- If every element of a form is disabled and no image was clicked, the form gives no pair at all,
-- in the plain mode.
pub form_to_array_disabled :
    (val : Element → Text) (f : Form) (els : List Element)
    → f.elements ≡ some els
    → click_pairs val false f ≡ []
    → All (λ el. el.disabled ≡ true) els
    → form_to_array val false (some f) ≡ []
form_to_array_disabled val f els listed clicks h =
    rw (form_to_array_lem val false f els listed, clicks, loop_pairs_disabled val f els h)
