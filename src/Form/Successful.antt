-- ===== src/Form/Successful.antt =====
-- What `$.fieldValue` of jquery.form.js tests of a field, as a predicate.
use joshlong_examples.Common.{
  ℕ, ◌≡◌, ◌≢◌, ◌↔◌, ◌⊎◌, refl, inl, inr, arith, Bool, true, false, not, ◌&&◌, Option, none, some,
  List, [], ◌∷◌, ◌++◌, ==_iff, if◌then◌else◌, is_some, Bool-cases, nonempty, Text, take, drop,
  length, ◌+◌,
}
use joshlong_examples.Form.Fields.{
  FieldType, checkbox, radio, submit, image, reset, button, Tag, select, Element, null, is_tick,
  is_press, is_idle, is_select, is_clicked, is_skipped, select_loop, select_value, field_value,
  OptionElement, option_value, is_select_one,
}

-- A control that `$.fieldValue(el, true)` does not skip: it has a name and is enabled, is no reset button and no plain
-- button, is on if it is a check box or a radio button, is the one that was clicked if it submits
-- its form, and has a selection if it is a select element.
pub record IsSuccessful (clk : Option Element) (el : Element) : Type 0 where
  pub named : nonempty el.name ≡ true
  pub enabled : el.disabled ≡ false
  pub acts : (el.type ≢ reset) × (el.type ≢ button)
  pub ticked : (el.type ≡ checkbox) ⊎ (el.type ≡ radio) → el.checked ≡ true
  pub clicked :
      (el.type ≡ submit) ⊎ (el.type ≡ image)
      → el.in_form ≡ true
      → (c : Element) × (clk ≡ some c) × (c.ref ≡ el.ref)
  pub chosen : el.tag ≡ select → (i : ℕ) × (el.selected_index ≡ some i)

is_tick_iff : (t : FieldType) → (is_tick t ≡ true) ↔ ((t ≡ checkbox) ⊎ (t ≡ radio))
unfolding is_tick
is_tick_iff t = ground arith

is_press_iff : (t : FieldType) → (is_press t ≡ true) ↔ ((t ≡ submit) ⊎ (t ≡ image))
unfolding is_press
is_press_iff t = ground arith

is_idle_iff : (t : FieldType) → (is_idle t ≡ false) ↔ ((t ≢ reset) × (t ≢ button))
unfolding is_idle
is_idle_iff t = ground arith

is_select_iff : (t : Tag) → (is_select t ≡ true) ↔ (t ≡ select)
unfolding is_select
is_select_iff t = ground arith

is_clicked_iff :
    (clk : Option Element) (el : Element)
    → (is_clicked clk el ≡ true) ↔ ((c : Element) × (clk ≡ some c) × (c.ref ≡ el.ref))
unfolding is_clicked
is_clicked_iff none el = (λ h. cc, λ h. cc h.1)
is_clicked_iff (some c) el =
    (λ h. (c, refl, (==_iff _ _).0 h), λ h. let (d, e, q) = h in ground arith)

pub is_skipped_of :
    (clk : Option Element) (el : Element) → is_skipped clk el ≡ false → IsSuccessful clk el
unfolding is_skipped
is_skipped_of clk el h = record {
  named = ground arith;
  enabled = ground arith;
  acts = (is_idle_iff el.type).0 (ground arith);
  ticked = λ t. ground (arith, (is_tick_iff el.type).1 t);
  clicked = λ p f. (is_clicked_iff clk el).0 (ground (arith, (is_press_iff el.type).1 p));
  chosen = λ e. chosen_index el.selected_index (ground (arith, (is_select_iff el.tag).1 e));
}
  where
    chosen_index : (o : Option ℕ) → is_some o ≡ true → (i : ℕ) × (o ≡ some i)
    chosen_index none h = absurd (ground arith)
    chosen_index (some i) h = (i, refl)

not_skipped :
    (clk : Option Element) (el : Element) → IsSuccessful clk el → is_skipped clk el ≡ false
unfolding is_skipped
not_skipped clk el v =
    let tick : is_tick el.type && not el.checked ≡ false = elim (Bool-cases (is_tick el.type)) [
      | inl t ↦ rw (v.ticked ((is_tick_iff el.type).0 t)) (ground arith)
      | inr f ↦ rw f
    ] in
    let press : is_press el.type && el.in_form && not (is_clicked clk el) ≡ false =
      elim (Bool-cases (is_press el.type)) [
        | inl t ↦ elim (Bool-cases el.in_form) [
          | inl g ↦
              ground (arith, (is_clicked_iff clk el).1 (v.clicked ((is_press_iff el.type).0 t) g))
          | inr g ↦ ground arith
        ]
        | inr f ↦ rw f
      ] in
    let pick : is_select el.tag && not (is_some el.selected_index) ≡ false =
      elim (Bool-cases (is_select el.tag)) [
        | inl t ↦ let (i, e) = v.chosen ((is_select_iff el.tag).0 t) in rw (e, t)
        | inr f ↦ rw f
      ] in
    simp (v.named, v.enabled, (is_idle_iff el.type).1 v.acts, tick, press, pick)

select_loop-ne-null :
    (single : Bool) (ops : List OptionElement) (a : List Text) → select_loop single ops a ≢ null
unfolding select_loop
select_loop-ne-null single [] a = λ h. cc
select_loop-ne-null single (op ∷ ops) a =
    ground
      (arith, select_loop-ne-null single ops (if op.selected then a ++ option_value op ∷ [] else a))

select_value-ne-null : (el : Element) (i : ℕ) → el.selected_index ≡ some i → select_value el ≢ null
unfolding select_value
select_value-ne-null el i e =
    let single = is_select_one el.type in
    let max = if single then i + 1 else length el.options in
    rw (e, select_value)
      (select_loop-ne-null single (drop (if single then i else 0) (take max el.options)) [])

successful-ne-null :
    (clk : Option Element) (el : Element)
    → IsSuccessful clk el
    → field_value clk el (some true) ≢ null
unfolding field_value
successful-ne-null clk el v =
    let kept = not_skipped clk el v in
    elim (Bool-cases (is_select el.tag)) [
      | inl t ↦
          let (i, e) = v.chosen ((is_select_iff el.tag).0 t) in
          let found = select_value-ne-null el i e in ground arith
      | inr f ↦ ground arith
    ]

-- `$.fieldValue(el, true)` is null exactly for the controls that it skips.
pub field_value-ne-null_iff :
    (clk : Option Element) (el : Element)
    → (field_value clk el (some true) ≢ null) ↔ IsSuccessful clk el
unfolding field_value
field_value-ne-null_iff clk el = (there, successful-ne-null clk el)
  where
    there : field_value clk el (some true) ≢ null → IsSuccessful clk el
    there h = elim (Bool-cases (is_skipped clk el)) [
      | inl t ↦ absurd (h (rw t))
      | inr f ↦ is_skipped_of clk el f
    ]

-- What `$.fieldValue` does on the controls that are skipped, and on select elements that are not.
pub field_value_skipped :
    (clk : Option Element) (el : Element)
    → is_skipped clk el ≡ true
    → field_value clk el (some true) ≡ null
unfolding field_value
field_value_skipped clk el h = rw h

pub field_value_select :
    (clk : Option Element) (el : Element)
    → IsSuccessful clk el
    → el.tag ≡ select
    → field_value clk el (some true) ≡ select_value el
unfolding field_value
field_value_select clk el v e =
    let kept = not_skipped clk el v in let t = (is_select_iff el.tag).1 e in ground arith

pub off-is_skipped :
    (clk : Option Element) (el : Element)
    → is_tick el.type ≡ true
    → el.checked ≡ false
    → is_skipped clk el ≡ true
unfolding is_skipped
off-is_skipped clk el t c = ground arith

pub disabled-is_skipped :
    (clk : Option Element) (el : Element) → el.disabled ≡ true → is_skipped clk el ≡ true
unfolding is_skipped
disabled-is_skipped clk el d = ground arith
