-- ===== src/Form/Clicked.antt =====
-- Which submit button a form sends after a click.
use joshlong_examples.Common.{
  ◌≡◌, ◌⊎◌, refl, ap, ◌∙◌, arith, inl, inr, Option-cases, by_cases, ◌==◌, Bool, true, false, Option,
  none, some, [], ◌∷◌, if◌then◌else◌, Text, nonempty,
}
use joshlong_examples.Form.Fields.{
  Element, Form, submit, input, button_tag, is_tick, is_press, is_idle, is_image, is_select,
  is_clicked, is_skipped, field_value, value_pairs, text_pair, element_pairs,
}
use joshlong_examples.Form.Click.{Click, submit_element, set_coordinates, click, clear_click}

-- A named, enabled submit button of a form, an `input` or a `button`, with its value.
abbrev pub IsSubmit : Element → Text → Type 0
IsSubmit el v =
    (nonempty el.name ≡ true)
    × (el.disabled ≡ false)
    × (el.type ≡ submit)
    × ((el.tag ≡ input) ⊎ (el.tag ≡ button_tag))
    × (el.in_form ≡ true)
    × (el.value ≡ some v)

element_pairs-submit :
    (val : Element → Text) (semantic : Bool) (f : Form) (el : Element) (v : Text)
    → IsSubmit el v
    → element_pairs val semantic f el
      ≡ (if is_clicked f.clk el then text_pair el.name v ∷ [] else [])
unfolding element_pairs field_value is_skipped is_tick is_press is_idle is_image is_select
    value_pairs
element_pairs-submit val semantic f el v (named, enabled, type, tag, in_form, value) = ground arith

clk-set_coordinates : (c : Click) (f : Form) → (set_coordinates c f).clk ≡ f.clk
unfolding set_coordinates
clk-set_coordinates c f = elim (Option-cases c.offset_x) [
  | inl e ↦ elim (Option-cases c.offset) [ inl o ↦ ground arith | inr (place, o) ↦ ground arith ]
  | inr (x, e) ↦ ground arith
]

clk-click :
    (c : Click) (f : Form) (s : Element) → submit_element c ≡ some s → (click c f).0.clk ≡ some s
unfolding click
clk-click c f s e =
    ap {B = Option Element}
      (λ o.
        (elim o as (λ _. Form × Bool) [
          | none ↦ (f, false)
          | some el ↦
              let clicked = record f { clk = some el } in
              (if is_image el.type then set_coordinates c clicked else clicked, true)
        ]).0.clk)
      e
    ∙ by_cases (λ (g : Form). g.clk ≡ some s) (is_image s.type) _ _
        (λ _. clk-set_coordinates c (record f { clk = some s })) (λ _. refl)

-- After a click on a submit element, or inside one, a named, enabled submit button of the form is
-- sent with its value if it is the one that was clicked, and any other is left out; once the timer
-- has run, none is sent. That holds in both modes of `formToArray`.
pub element_pairs-click :
    (val : Element → Text) (semantic : Bool) (c : Click) (f : Form) (s el : Element) (v : Text)
    → submit_element c ≡ some s
    → IsSubmit el v
    → (element_pairs val semantic (click c f).0 el
        ≡ (if s.ref == el.ref then text_pair el.name v ∷ [] else []))
      × (element_pairs val semantic (clear_click (click c f).0) el ≡ [])
unfolding is_clicked clear_click
element_pairs-click val semantic c f s el v on button = (
  element_pairs-submit val semantic (click c f).0 el v button
      ∙ ap (λ o. if is_clicked o el then text_pair el.name v ∷ [] else []) (clk-click c f s on),
  element_pairs-submit val semantic (clear_click (click c f).0) el v button,
)
