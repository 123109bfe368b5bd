-- ===== src/Comet/Replies.antt =====
-- Which converter writes a message, and for which accepted type.
use joshlong_examples.Common.{
  ◌≡◌, refl, ap, ◌∙◌, Bool, true, false, Option, none, some, List, [], ◌∷◌, ◌++◌, if◌then◌else◌,
  map, keep, Text,
}
use joshlong_examples.Comet.Mapper.{
  Converter, Written, written, conversion_failed, no_converter, write_accepted, write_with,
  accept_or, write_message,
}

-- The converters with the accepted types, in the order in which they are tried.
abbrev pub choices : {A B : Type 0} → List A → List B → List (A × B)
choices [] ts = []
choices (c ∷ cs) ts = map (λ t. (c, t)) ts ++ choices cs ts

abbrev pub can_write : {M C P : Type 0} → C → Converter M C P × M → Bool
can_write content (c, t) = c.can_write content t

-- What the first of the choices that can write makes of the content.
abbrev pub result : {M C P : Type 0} → C → List (Converter M C P × M) → Written
result content [] = no_converter
result content ((c, t) ∷ rest) = elim (c.write content t) [
  | none ↦ conversion_failed
  | some text ↦ written text
]

write_accepted-keep :
    {M C P : Type 0} (c : Converter M C P) (ts : List M) (content : C)
    (more : List (Converter M C P × M))
    → elim (write_accepted c ts content) [
      | none ↦ result content (keep (can_write content) more)
      | some none ↦ conversion_failed
      | some (some t) ↦ written t
    ]
      ≡ result content (keep (can_write content) (map (λ t. (c, t)) ts ++ more))
unfolding write_accepted
write_accepted-keep c [] content more = refl
write_accepted-keep {M} {C} {P} c (t ∷ ts) content more =
    either (c.can_write content t) (write_accepted-keep c ts content more)
  where
    either :
        (b : Bool)
        → elim (write_accepted c ts content) [
          | none ↦ result content (keep (can_write content) more)
          | some none ↦ conversion_failed
          | some (some t) ↦ written t
        ]
          ≡ result content (keep (can_write content) (map (λ t. (c, t)) ts ++ more))
        → elim (if b then some (c.write content t) else write_accepted c ts content) [
          | none ↦ result content (keep (can_write content) more)
          | some none ↦ conversion_failed
          | some (some t) ↦ written t
        ]
          ≡ result content (
              if b
              then (c, t) ∷ keep (can_write content) (map (λ t. (c, t)) ts ++ more)
              else keep (can_write content) (map (λ t. (c, t)) ts ++ more))
    either true h = outcome (c.write content t)
      where
        outcome :
            (o : Option Text)
            → elim (some o) [
              | none ↦ result content (keep (can_write content) more)
              | some none ↦ conversion_failed
              | some (some t) ↦ written t
            ]
              ≡ elim o [ none ↦ conversion_failed | some text ↦ written text ]
        outcome none = refl
        outcome (some x) = refl
    either false h = h

-- `writeMessage` writes with the first converter that can write the content for a type that the
-- request accepts, for the first such type, JSON being accepted where the request names none: the
-- order of the converters goes before that of the request. It throws where there is no such
-- converter, and where that first one throws.
pub write_message-keep :
    {M C P : Type 0} (json : M) (converters : List (Converter M C P)) (accept : List M)
    (content : C)
    → write_message json converters accept content
      ≡ result content (keep (can_write content) (choices converters (accept_or json accept)))
unfolding write_message write_with
write_message-keep {M} {C} {P} json converters accept content =
    tried converters (accept_or json accept)
  where
    tried :
        (cs : List (Converter M C P)) (ts : List M)
        → write_with cs ts content ≡ result content (keep (can_write content) (choices cs ts))
    tried [] ts = refl
    tried (c ∷ cs) ts =
        ap {B = Written}
          (λ w. elim (write_accepted c ts content) [
            | none ↦ w
            | some none ↦ conversion_failed
            | some (some t) ↦ written t
          ])
          (tried cs ts)
        ∙ write_accepted-keep c ts content (choices cs ts)
