-- ===== src/Form/Edits.antt =====
-- jquery.form.js, the functions that change fields: `clearFields`, `enable`, `selected` and
-- `resetForm`.
use joshlong_examples.Common.{
  ℕ, suc, Bool, true, false, not, ◌&&◌, ◌||◌, Option, none, some, List, [], ◌∷◌, map, if◌then◌else◌,
  get_or, get_elem?, set,
}
use joshlong_examples.Form.Fields.{
  FieldType, text, password, Tag, textarea, OptionElement, Element, is_tick, is_select,
  is_select_one,
}

unfoldable pub is_line : FieldType → Bool
is_line text = true
is_line password = true
is_line _ = false

unfoldable pub is_textarea : Tag → Bool
is_textarea textarea = true
is_textarea _ = false

-- `option.selected = b`
unfoldable pub set_selected : Bool → OptionElement → OptionElement
set_selected b op = record op { selected = b }

-- `this.selectedIndex = -1`: the browser deselects every option.
unfoldable pub deselect : Element → Element
deselect el = record el { selected_index = none; options = map (set_selected false) el.options }

-- The body of `clearFields`.
unfoldable pub clear_field : Element → Element
clear_field el =
    if is_line el.type || is_textarea el.tag
    then record el { value = some [] }
    else if is_tick el.type
    then record el { checked = false }
    else if is_select el.tag
    then deselect el
    else el

unfoldable pub clear_fields : List Element → List Element
clear_fields els = map clear_field els

-- The body of `enable(b)`; `b` may be left out.
unfoldable pub enable_field : Option Bool → Element → Element
enable_field b el = record el { disabled = not (get_or b true) }

unfoldable pub enable : Option Bool → List Element → List Element
enable b els = map (enable_field b) els

-- A member of a selection: a field of the document, or an option of a select element of it.
pub data Item : Type 0 where
  field : ℕ → Item
  choice : ℕ → ℕ → Item

-- `el.checked = b` on a check box or a radio button; other fields are left alone.
unfoldable pub tick : Bool → Element → Element
tick b el = if is_tick el.type then record el { checked = b } else el

-- The index of the first selected option, which the browser keeps as `selectedIndex`.
unfoldable pub first_selected : List OptionElement → Option ℕ
first_selected [] = none
first_selected (op ∷ ops) =
    let rest = first_selected ops in
    if op.selected then some 0 else elim rest [ none ↦ none | some i ↦ some (suc i) ]

unfoldable pub set_options : List OptionElement → Element → Element
set_options ops el = record el { options = ops; selected_index = first_selected ops }

-- An option of a select element: with a single choice, all options are deselected before one is
-- selected.
unfoldable pub choose : Bool → ℕ → Element → Element
choose b j el =
    let ops =
      if b && is_select_one el.type then map (set_selected false) el.options else el.options in
    elim (get_elem? ops j) [
      | none ↦ set_options ops el
      | some op ↦ set_options (set ops j (set_selected b op)) el
    ]

unfoldable pub update : ℕ → (Element → Element) → List Element → List Element
update i f els = elim (get_elem? els i) [ none ↦ els | some el ↦ set els i (f el) ]

-- The body of `selected(b)`; `b` may be left out.
unfoldable pub select_item : Option Bool → Item → List Element → List Element
select_item b (field i) els = update i (tick (get_or b true)) els
select_item b (choice i j) els = update i (choose (get_or b true) j) els

unfoldable pub selected : Option Bool → List Item → List Element → List Element
selected b [] els = els
selected b (x ∷ xs) els = selected b xs (select_item b x els)

-- What `form.reset` is: a method, an object (in some browsers), or an input named `reset`.
pub data ResetProperty : Type 0 where
  method object_method named_input no_property : ResetProperty

-- `resetForm` on one form: whether the form's own `reset` is called.
unfoldable pub calls_reset : ResetProperty → Bool
calls_reset method = true
calls_reset object_method = true
calls_reset _ = false
