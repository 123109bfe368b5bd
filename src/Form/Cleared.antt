-- ===== src/Form/Cleared.antt =====
-- What can be read of a form after jquery.form.js has changed its fields.
use joshlong_examples.Common.{
  ℕ, suc, zero, ◌≡◌, ◌⊎◌, refl, ap, inl, inr, arith, Bool, true, false, ◌||◌, Option, some, List,
  [], ◌∷◌, map, Bool-cases, get_elem?, set, keep, All, Text, nonempty,
}
use joshlong_examples.Form.Fields.{
  hidden, submit, reset, button, Tag, input, button_tag, select, select_one, OptionElement, Element,
  Form, null, one, is_tick, is_select, is_select_one, is_skipped, option_value, field_value,
  click_pairs, image_pairs, form_to_array,
}
use joshlong_examples.Form.Edits.{
  is_line, is_textarea, set_selected, deselect, clear_field, clear_fields, enable_field, enable,
  set_options, first_selected, choose,
}
use joshlong_examples.Form.Values.{texts, form_to_array_disabled, field_value_single}

map_set_selected_idem :
    (b : Bool) (ops : List OptionElement)
    → map (set_selected b) (map (set_selected b) ops) ≡ map (set_selected b) ops
unfolding set_selected
map_set_selected_idem b [] = refl
map_set_selected_idem b (op ∷ ops) = rw (map_set_selected_idem b ops)

clear_field_idem : (el : Element) → clear_field (clear_field el) ≡ clear_field el
unfolding clear_field deselect
clear_field_idem el = ground (arith, map_set_selected_idem false el.options)

-- Clearing a list of fields twice changes no more than clearing it once.
clear_fields_idem : (els : List Element) → clear_fields (clear_fields els) ≡ clear_fields els
unfolding clear_fields
clear_fields_idem [] = refl
clear_fields_idem (el ∷ els) =
    rw (clear_field_idem el) (ap (λ l. clear_field el ∷ l) (clear_fields_idem els))

-- The types and elements that `clearFields` documents as not affected.
abbrev pub IsKept : Element → Type 0
IsKept el =
    ((el.tag ≡ input)
      × ((el.type ≡ submit) ⊎ (el.type ≡ button) ⊎ (el.type ≡ reset) ⊎ (el.type ≡ hidden)))
    ⊎ ((el.tag ≡ button_tag) × ((el.type ≡ submit) ⊎ (el.type ≡ button) ⊎ (el.type ≡ reset)))

-- `clearFields` leaves inputs of the types submit, button, reset and hidden exactly as they are, and
-- button elements too.
clear_field_kept : (el : Element) → IsKept el → clear_field el ≡ el
unfolding clear_field is_line is_textarea is_tick is_select
clear_field_kept el k = ground arith

select-ne-textarea : (t : Tag) → is_select t ≡ true → is_textarea t ≡ false
unfolding is_select is_textarea
select-ne-textarea t h = ground arith

clear_field_cases :
    (clk : Option Element) (el : Element)
    → is_line el.type || is_textarea el.tag || is_tick el.type || is_select el.tag ≡ true
    → (is_select el.tag ≡ true → (is_line el.type ≡ false) × (is_tick el.type ≡ false))
    → (field_value clk (clear_field el) (some true) ≡ null)
      ⊎ (field_value clk (clear_field el) (some true) ≡ one [])
unfolding clear_field field_value is_skipped deselect
clear_field_cases clk el h k = elim (Bool-cases (is_select el.tag)) [
  | inl t ↦ let (l, c) = k t in let a = select-ne-textarea el.tag t in ground arith
  | inr f ↦ ground arith
]

-- A field that `clearFields` clears submits nothing afterwards, or the empty text alone. It is
-- assumed that a select element has the type of one, not that of a text field or a check box.
pub field_value-clear_field :
    (clk : Option Element) (el : Element)
    → is_line el.type || is_textarea el.tag || is_tick el.type || is_select el.tag ≡ true
    → (is_select el.tag ≡ true → (is_line el.type ≡ false) × (is_tick el.type ≡ false))
    → All (λ t. t ≡ []) (texts (field_value clk (clear_field el) (some true)))
field_value-clear_field clk el h k = elim (clear_field_cases clk el h k) [
  | inl e ↦ rw e tt
  | inr e ↦ rw e (refl, tt)
]

-- The last call of `enable` decides, for every field.
enable-enable : (b c : Option Bool) (els : List Element) → enable b (enable c els) ≡ enable b els
unfolding enable enable_field
enable-enable b c [] = refl
enable-enable b c (el ∷ els) = rw (enable-enable b c els)

enable-disabled : (els : List Element) → All (λ el. el.disabled ≡ true) (enable (some false) els)
unfolding enable enable_field
enable-disabled [] = tt
enable-disabled (el ∷ els) = (refl, enable-disabled els)

-- After `enable(false)` on all elements of a form, `formToArray` gives no pair in the plain mode,
-- where no image was clicked.
form_to_array-enable :
    (val : Element → Text) (f : Form) (els : List Element)
    → click_pairs val false f ≡ []
    → form_to_array val false (some (record f { elements = some (enable (some false) els) })) ≡ []
unfolding click_pairs image_pairs
form_to_array-enable val f els clicks =
    form_to_array_disabled val (record f { elements = some (enable (some false) els) })
      (enable (some false) els) refl clicks (enable-disabled els)

-- What `selected(true)` makes of the options of a select element with a single choice.
abbrev only : ℕ → OptionElement → List OptionElement → List OptionElement
only j op ops = set (map (set_selected false) ops) j (set_selected true op)

first_selected-only :
    (j : ℕ) (op : OptionElement) (ops : List OptionElement) {x : OptionElement}
    → get_elem? ops j ≡ some x
    → first_selected (only j op ops) ≡ some j
unfolding first_selected set_selected
first_selected-only j op [] h = absurd (ground arith)
first_selected-only zero op (o ∷ ops) h = refl
first_selected-only (suc j) op (o ∷ ops) h = rw (first_selected-only j op ops h)

get_elem?-only :
    (j : ℕ) (op : OptionElement) (ops : List OptionElement) {x : OptionElement}
    → get_elem? ops j ≡ some x
    → (get_elem? (only j op ops) j ≡ some (set_selected true op))
      × (get_elem? (map (set_selected false) ops) j ≡ some (set_selected false x))
get_elem?-only j op [] h = absurd (ground arith)
get_elem?-only zero op (o ∷ ops) h = (refl, ground arith)
get_elem?-only (suc j) op (o ∷ ops) h = get_elem?-only j op ops h

keep-only :
    (j : ℕ) (op : OptionElement) (ops : List OptionElement) {x : OptionElement}
    → get_elem? ops j ≡ some x
    → keep (λ o. o.selected) (only j op ops) ≡ set_selected true op ∷ []
unfolding set_selected
keep-only j op [] h = absurd (ground arith)
keep-only zero op (o ∷ ops) h = ap (λ l. set_selected true op ∷ l) (none_kept ops)
  where
    none_kept :
        (os : List OptionElement) → keep (λ o. o.selected) (map (set_selected false) os) ≡ []
    none_kept [] = refl
    none_kept (o ∷ os) = none_kept os
keep-only (suc j) op (o ∷ ops) h = keep-only j op ops h

choose_single :
    (j : ℕ) (el : Element) (op : OptionElement)
    → is_select_one el.type ≡ true
    → get_elem? el.options j ≡ some op
    → choose true j el ≡ set_options (only j op el.options) el
unfolding choose set_selected
choose_single j el op m at = rw (m, choose, (get_elem?-only j op el.options at).1) (rw m)

-- After `selected(true)` on an option of a select element with a single choice, that option is the
-- only selected one, whatever was selected before; and if the element has a name and is enabled,
-- `$.fieldValue` then returns the value of that option.
pub field_value-choose :
    (clk : Option Element) (j : ℕ) (el : Element) (op : OptionElement)
    → el.tag ≡ select
    → el.type ≡ select_one
    → nonempty el.name ≡ true
    → el.disabled ≡ false
    → get_elem? el.options j ≡ some op
    → (keep (λ o. o.selected) (choose true j el).options ≡ set_selected true op ∷ [])
      × (field_value clk (choose true j el) (some true) ≡ one (option_value op))
unfolding set_options is_select_one option_value set_selected
field_value-choose clk j el op tag type named enabled at =
    let single : is_select_one el.type ≡ true = rw type in
    rw (choose_single j el op single at) (
      keep-only j op el.options at,
      field_value_single clk (set_options (only j op el.options) el) j (set_selected true op)
          (record {
            named = named;
            enabled = enabled;
            acts = (λ e. ground arith, λ e. ground arith);
            ticked = λ e. absurd (ground arith);
            clicked = λ e. absurd (ground arith);
            chosen = λ e. (j, first_selected-only j op el.options at);
          })
          tag single (first_selected-only j op el.options at) (get_elem?-only j op el.options at).0
          refl,
    )
