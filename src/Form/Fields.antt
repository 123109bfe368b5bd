-- ===== src/Form/Fields.antt =====
-- Form fields of jquery.form.js as data: `$.fieldValue`, `fieldValue`, `formToArray`,
-- `formSerialize` and `fieldSerialize`.
--
-- An element is a record of the properties that the script reads. The browser keeps the index of a
-- select element below the number of its options (`none` is -1), which the loop of `$.fieldValue`
-- relies on: the part of the options that it visits is taken as a list.
use joshlong_examples.Common.{
  ℕ, ◌+◌, Bool, true, false, not, ◌&&◌, ◌||◌, Option, none, some, List, [], ◌∷◌, ◌++◌, ◌==◌,
  if◌then◌else◌, is_some, take, drop, length, map, Text, codes, nonempty, JQuery,
}

-- The property `type`.
pub data FieldType : Type 0 where
  text password hidden file checkbox radio submit image reset button : FieldType
  select_one select_multiple textarea_type other_type : FieldType

-- The property `tagName`, in lower case.
pub data Tag : Type 0 where
  input select textarea button_tag option_tag other_tag : Tag

pub record OptionElement : Type 0 where
  pub value : Text
  pub label : Text  -- the property `text`
  pub selected : Bool
  pub specified : Option Bool  -- of the attribute `value`, where there is one

pub record Element : Type 0 where
  pub ref : ℕ  -- the identity of the object
  pub name : Text
  pub type : FieldType
  pub tag : Tag
  pub disabled : Bool
  pub checked : Bool
  pub value : Option Text  -- `none` is undefined
  pub in_form : Bool  -- whether `el.form` is set
  pub selected_index : Option ℕ  -- `none` is -1
  pub options : List OptionElement

pub record Form : Type 0 where
  pub elements : Option (List Element)
  pub descendants : Option (List Element)  -- `getElementsByTagName('*')`
  pub clk : Option Element
  pub clk_x : Option ℕ
  pub clk_y : Option ℕ

-- What `$.fieldValue` returns.
pub data Value : Type 0 where
  null undefined : Value
  one : Text → Value
  many : List Text → Value

-- A value of the array that is submitted: a string, or a coordinate.
pub data Entry : Type 0 where
  string : Text → Entry
  coordinate : Option ℕ → Entry

pub record Pair : Type 0 where
  pub name : Text
  pub value : Entry

unfoldable pub is_tick : FieldType → Bool
is_tick checkbox = true
is_tick radio = true
is_tick _ = false

unfoldable pub is_press : FieldType → Bool
is_press submit = true
is_press image = true
is_press _ = false

unfoldable pub is_idle : FieldType → Bool
is_idle reset = true
is_idle button = true
is_idle _ = false

unfoldable pub is_image : FieldType → Bool
is_image image = true
is_image _ = false

unfoldable pub is_select_one : FieldType → Bool
is_select_one select_one = true
is_select_one _ = false

unfoldable pub is_select : Tag → Bool
is_select select = true
is_select _ = false

-- `clk == el`, where `clk` may be unset.
unfoldable pub is_clicked : Option Element → Element → Bool
is_clicked none el = false
is_clicked (some c) el = c.ref == el.ref

-- The condition under which `$.fieldValue` returns null at once if only successful values count.
unfoldable pub is_skipped : Option Element → Element → Bool
is_skipped clk el =
    not (nonempty el.name)
    || el.disabled
    || is_idle el.type
    || (is_tick el.type && not el.checked)
    || (is_press el.type && el.in_form && not (is_clicked clk el))
    || (is_select el.tag && not (is_some el.selected_index))

-- The value of one option of a select element.
unfoldable pub option_value : OptionElement → Text
option_value op = if nonempty op.value then op.value else elim op.specified [
  | none ↦ op.value
  | some given ↦ if not given then op.label else op.value
]

-- The loop over the options that are visited; `a` is the array built so far.
unfoldable pub select_loop : Bool → List OptionElement → List Text → Value
select_loop single [] a = many a
select_loop single (op ∷ ops) a =
    let rest = select_loop single ops (if op.selected then a ++ option_value op ∷ [] else a) in
    if op.selected && single then one (option_value op) else rest

unfoldable pub select_value : Element → Value
select_value el = elim el.selected_index [
  | none ↦ null
  | some index ↦
      let single = is_select_one el.type in
      let max = if single then index + 1 else length el.options in
      select_loop single (drop (if single then index else 0) (take max el.options)) []
]

-- `$.fieldValue(el, successful)`; `clk` is the property of the element's form.
unfoldable pub field_value : Option Element → Element → Option Bool → Value
field_value clk el successful =
    let only_successful : Bool = elim successful [ none ↦ true | some b ↦ b ] in
    if only_successful && is_skipped clk el
    then null
    else if is_select el.tag
    then select_value el
    else elim el.value [ none ↦ undefined | some v ↦ one v ]

-- `fieldValue` over the elements that match: the body of its loop, and the loop.
unfoldable pub add_value : JQuery → Value → List Text → List Text
add_value jq null val = val
add_value jq undefined val = val
add_value jq (many []) val = val
add_value jq (many (v ∷ vs)) val = jq.merge Text val (v ∷ vs)
add_value jq (one v) val = val ++ v ∷ []

unfoldable pub field_values :
    JQuery → Option Element → Option Bool → List Element → List Text → List Text
field_values jq clk successful [] val = val
field_values jq clk successful (el ∷ els) val =
    field_values jq clk successful els (add_value jq (field_value clk el successful) val)

unfoldable pub text_pair : Text → Text → Pair
text_pair n v = record { name = n; value = string v }

-- The pairs that the value of a field adds under its name.
unfoldable pub value_pairs : Text → Value → List Pair
value_pairs n null = []
value_pairs n undefined = []
value_pairs n (one v) = text_pair n v ∷ []
value_pairs n (many vs) = map (text_pair n) vs

-- The pairs of a clicked image: its value and the two coordinates. `val` is jQuery's `val()`.
unfoldable pub image_pairs : (Element → Text) → Form → Element → List Pair
image_pairs val f el =
    text_pair el.name (val el)
    ∷ record { name = el.name ++ codes ".x"; value = coordinate f.clk_x }
    ∷ record { name = el.name ++ codes ".y"; value = coordinate f.clk_y }
    ∷ []

-- What one turn of the loop of `formToArray` pushes.
unfoldable pub element_pairs : (Element → Text) → Bool → Form → Element → List Pair
element_pairs val semantic f el =
    if not (nonempty el.name)
    then []
    else if semantic && is_some f.clk && is_image el.type
    then if not el.disabled && is_clicked f.clk el then image_pairs val f el else []
    else value_pairs el.name (field_value f.clk el (some true))

unfoldable pub collect : (Element → Text) → Bool → Form → List Element → List Pair → List Pair
collect val semantic f [] a = a
collect val semantic f (el ∷ els) a =
    collect val semantic f els (a ++ element_pairs val semantic f el)

-- What is pushed after the loop: an image is not among the elements of a form.
unfoldable pub click_pairs : (Element → Text) → Bool → Form → List Pair
click_pairs val semantic f = elim f.clk [
  | none ↦ []
  | some el ↦
      if not semantic && (nonempty el.name && not el.disabled && is_image el.type)
      then image_pairs val f el
      else []
]

-- `formToArray` on the first form that matches, if any does.
unfoldable pub form_to_array : (Element → Text) → Bool → Option Form → List Pair
form_to_array val semantic none = []
form_to_array val semantic (some f) = elim (if semantic then f.descendants else f.elements) [
  | none ↦ []
  | some els ↦ collect val semantic f els [] ++ click_pairs val semantic f
]

-- `formSerialize`, over jQuery's `param`.
unfoldable pub form_serialize : (Element → Text) → (List Pair → Text) → Bool → Option Form → Text
form_serialize val param semantic f = param (form_to_array val semantic f)

-- The loop of `fieldSerialize`.
unfoldable pub field_pairs : Option Element → Option Bool → List Element → List Pair → List Pair
field_pairs clk successful [] a = a
field_pairs clk successful (el ∷ els) a =
    field_pairs clk successful els (
      if not (nonempty el.name)
      then a
      else a ++ value_pairs el.name (field_value clk el successful))

unfoldable pub field_serialize :
    (List Pair → Text) → Option Element → Option Bool → List Element → Text
field_serialize param clk successful els = param (field_pairs clk successful els [])
