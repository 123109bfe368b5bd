-- ===== src/Atmosphere/Callbacks.antt =====
-- The callbacks of jquery.atmosphere.js: how they are registered and called.
use joshlong_examples.Common.{
  ℕ, ◌≡◌, refl, sym, ap, ◌∙◌, inl, inr, arith, true, Option, none, some, List, [], ◌∷◌, ◌++◌,
  append-nil, append_assoc, Bool-cases, JQuery, fold, member, map,
}
use joshlong_examples.Atmosphere.Defs.{
  Response, Event, called, State, done, reference_error, emit, add_callback, remove_callback,
  invoke_callback, Level,
}

-- The calls of callbacks with a response.
abbrev pub calls : List ℕ → Response → List Event
calls fs r = map (λ f. called f r) fs

fold-calls :
    (fs : List ℕ) (r : Response) (s : State)
    → fold (λ f (t : State). emit (called f r) t) fs s ≡ record s { log = s.log ++ calls fs r }
unfolding emit
fold-calls [] r s = ap (λ l. record s { log = l }) (sym (append-nil s.log))
fold-calls (f ∷ fs) r s =
    fold-calls fs r (emit (called f r) s)
    ∙ ap (λ l. record s { log = l }) (append_assoc s.log (called f r ∷ []) (calls fs r))

pub invoke_callback_lem :
    (jq : JQuery) (s : State) (level : Level)
    → s.log_level ≡ some level
    → invoke_callback jq s ≡ done (record s { log = s.log ++ calls s.callbacks s.response })
unfolding invoke_callback
invoke_callback_lem jq s level e =
    called_each
    ∙ ap done (jq.each_lem ℕ State _ s.callbacks s ∙ fold-calls s.callbacks s.response s)
  where
    called_each :
        invoke_callback jq s
        ≡ done (jq.each ℕ State (λ f t. emit (called f s.response) t) s.callbacks s)
    called_each =
        ap
          (λ (o : Option Level). elim o [
            | none ↦ reference_error s
            | some l ↦ done (jq.each ℕ State (λ f t. emit (called f s.response) t) s.callbacks s)
          ])
          e

member-snoc : (f : ℕ) (fs : List ℕ) → member f (fs ++ f ∷ []) ≡ true
member-snoc f [] = ground arith
member-snoc f (g ∷ gs) = ground (arith, member-snoc f gs)

-- `removeCallback` of a callback that `addCallback` has just registered throws, and the callback
-- stays registered.
remove_callback-add_callback :
    (jq : JQuery) (f : ℕ) (s : State)
    → (remove_callback jq f (add_callback jq f s) ≡ reference_error (add_callback jq f s))
      × (jq.in_array f (add_callback jq f s).callbacks ≡ true)
unfolding remove_callback add_callback
remove_callback-add_callback jq f s = elim (Bool-cases (jq.in_array f s.callbacks)) [
  | inl t ↦ rw t (rw t refl, t)
  | inr n ↦
      let there : jq.in_array f (s.callbacks ++ f ∷ []) ≡ true =
        rw (jq.in_array_lem f (s.callbacks ++ f ∷ [])) (member-snoc f s.callbacks) in
      rw n (rw there refl, there)
]
