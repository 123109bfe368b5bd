-- ===== src/Form/Click.antt =====
-- jquery.form.js, `ajaxForm`: the handlers that it binds to a form.
--
-- What jQuery and the browser tell of a click is the record `Click`. The pointer is on the target, so
-- not left of it or above it, and the differences of coordinates are natural numbers.
use joshlong_examples.Common.{
  ℕ, ◌-◌, Bool, true, false, Option, none, some, List, if◌then◌else◌, Text, JQuery,
}
use joshlong_examples.Form.Fields.{Element, Form, Pair, is_image}
use joshlong_examples.Form.Submit.{Hooks, Argument, Page, Outcome, ajax_submit}

pub record Click : Type 0 where
  pub target : Element
  pub is_submit : Bool  -- `$el.is(":submit,input:image")`
  pub closest : Option Element  -- `$el.closest(':submit')`
  pub offset_x : Option ℕ
  pub offset_y : Option ℕ
  pub page_x : ℕ
  pub page_y : ℕ
  pub offset : Option (ℕ × ℕ)  -- `$el.offset()`, where jQuery has that function
  pub offset_left : ℕ  -- of the target
  pub offset_top : ℕ

-- The element that submits, if the click is on one or inside one.
unfoldable pub submit_element : Click → Option Element
submit_element c = if c.is_submit then some c.target else c.closest

unfoldable pub set_coordinates : Click → Form → Form
set_coordinates c f = elim c.offset_x [
  | some x ↦ record f { clk_x = some x; clk_y = c.offset_y }
  | none ↦ elim c.offset [
    | some (left, top) ↦ record f { clk_x = some (c.page_x - left); clk_y = some (c.page_y - top) }
    | none ↦ record f {
      clk_x = some (c.page_x - c.offset_left);
      clk_y = some (c.page_y - c.offset_top);
    }
  ]
]

-- The handler of `click`: the form, and whether the timer is set.
unfoldable pub click : Click → Form → Form × Bool
unfolding submit_element set_coordinates
click c f = elim (submit_element c) [
  | none ↦ (f, false)
  | some el ↦
      let clicked = record f { clk = some el } in
      (if is_image el.type then set_coordinates c clicked else clicked, true)
]

-- What the timer runs.
unfoldable pub clear_click : Form → Form
clear_click f = record f { clk = none; clk_x = none; clk_y = none }

-- The handler of `submit`, which keeps the browser from submitting the form itself.
unfoldable pub submit_form :
    JQuery
    → (Text → Text)
    → (List Pair → Text)
    → (Element → Text)
    → Hooks
    → Argument
    → Page
    → Outcome × Bool
submit_form jq trim param val h a p = (ajax_submit jq trim param val h a p, false)
