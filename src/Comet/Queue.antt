-- ===== src/Comet/Queue.antt =====
-- What the queue of the atmosphere application's adapter holds, and what it was emptied into.
use joshlong_examples.Common.{
  ◌≡◌, refl, ap, sym, ◌∙◌, inl, inr, arith, true, none, some, List, [], ◌∷◌, ◌++◌, ltb, leb,
  is_some, get_or, length, map, Option-cases, by_cases, subst, length-append, append_assoc,
  append-nil, Text,
}
use joshlong_examples.Comet.Adapter.{
  Message, HttpBroadcastMessage, Adapter, Lookup, Handled, broadcast_failed, wrap,
  ensure_broadcaster_setup, drain, enqueue, handle_message,
}

abbrev pub concat : {A : Type 0} → List (List A) → List A
concat [] = []
concat (x ∷ xs) = x ++ concat xs

-- The calls of `handleMessage`, each with what Atmosphere answers during it.
abbrev pub run : {P : Type 0} → List (Lookup × Message P) → Adapter P → Adapter P
run [] a = a
run ((l, m) ∷ cs) a = run cs (handle_message l m a).1

abbrev pub queue : {P : Type 0} → Adapter P → List (HttpBroadcastMessage P)
queue a = get_or a.message_queue []

-- What an adapter has taken: what it has broadcast, and then what waits in its queue.
abbrev pub taken : {P : Type 0} → Adapter P → List (HttpBroadcastMessage P)
taken a = concat a.broadcasts ++ queue a

concat-snoc :
    {A : Type 0} (xss : List (List A)) (xs : List A) → concat (xss ++ xs ∷ []) ≡ concat xss ++ xs
concat-snoc [] xs = append-nil xs
concat-snoc (ys ∷ xss) xs =
    ap (λ zs. ys ++ zs) (concat-snoc xss xs) ∙ sym (append_assoc ys (concat xss) xs)

-- What a call leaves of an adapter whose name is `name`, once the messages `qs` are taken.
abbrev Holds : {P : Type 0} → Text → List (HttpBroadcastMessage P) → Handled × Adapter P → Type 0
Holds name qs (h, a) = (is_some a.message_queue ≡ true) × (taken a ≡ qs) × (a.component_name ≡ name)

drain-Holds :
    {P : Type 0} (l : Lookup) (q : List (HttpBroadcastMessage P)) (a : Adapter P)
    → ltb 0 (length q) ≡ true
    → Holds a.component_name (concat a.broadcasts ++ q) (drain l q a)
unfolding drain
drain-Holds {P} l q a pos =
    by_cases (Holds a.component_name (concat a.broadcasts ++ q)) a.has_broadcaster _ _
      (λ _.
        by_cases (Holds a.component_name (concat a.broadcasts ++ q)) (ltb 0 (length q)) _ _
          (λ _.
            (refl, append-nil (concat (a.broadcasts ++ q ∷ [])) ∙ concat-snoc a.broadcasts q, refl))
          (λ none_there. absurd (cc)))
      (λ _. (refl, refl, refl))

pub ltb-length_snoc : {A : Type 0} (xs : List A) (x : A) → ltb 0 (length (xs ++ x ∷ [])) ≡ true
ltb-length_snoc xs x = let l = length-append xs (x ∷ []) in ground arith

enqueue-Holds :
    {P : Type 0} (l : Lookup) (q : List (HttpBroadcastMessage P)) (a : Adapter P)
    → ltb 0 (length q) ≡ true
    → Holds a.component_name (concat a.broadcasts ++ q) (enqueue l q a)
unfolding enqueue ensure_broadcaster_setup
enqueue-Holds l q a pos =
    by_cases (Holds a.component_name (concat a.broadcasts ++ q))
      (leb a.message_threshold (length q)) _ _
      (λ _.
        by_cases (λ x. Holds a.component_name (concat a.broadcasts ++ q) (drain l q x))
          a.has_broadcaster _ _ (λ _. drain-Holds l q a pos)
          (λ _. drain-Holds l q (record a { has_broadcaster = l.finds }) pos))
      (λ _. (refl, refl, refl))

-- A call on an adapter whose queue is set goes through `enqueue`.
pub handle_message-enqueue :
    {P : Type 0} (l : Lookup) (m : Message P) (a : Adapter P) (q : List (HttpBroadcastMessage P))
    → a.message_queue ≡ some q
    → handle_message l m a ≡ enqueue l (q ++ wrap a.component_name m ∷ []) a
unfolding handle_message
handle_message-enqueue {P} l m a q e =
    ap {B = Handled × Adapter P}
      (λ o. elim o [
        | none ↦ (broadcast_failed, a)
        | some q ↦ enqueue l (q ++ wrap a.component_name m ∷ []) a
      ])
      e

-- One call on a started adapter: the new message comes last in what the adapter has taken.
handle_message-Holds :
    {P : Type 0} (l : Lookup) (m : Message P) (a : Adapter P)
    → is_some a.message_queue ≡ true
    → Holds a.component_name (taken a ++ wrap a.component_name m ∷ []) (handle_message l m a)
handle_message-Holds l m a started = elim (Option-cases a.message_queue) [
  | inl none_yet ↦ absurd (cc)
  | inr (q, e) ↦
      let out = wrap a.component_name m in
      subst (Holds a.component_name (taken a ++ out ∷ [])) (sym (handle_message-enqueue l m a q e))
        (subst (λ qs. Holds a.component_name qs (enqueue l (q ++ out ∷ []) a))
          (sym (append_assoc (concat a.broadcasts) q (out ∷ []))
            ∙ ap (λ o. (concat a.broadcasts ++ get_or o []) ++ out ∷ []) (sym e))
          (enqueue-Holds l (q ++ out ∷ []) a (ltb-length_snoc q out)))
]

-- Whatever Atmosphere answers, with or without a broadcaster, and also where broadcasts fail: a
-- started adapter loses no message before a broadcast and repeats none. What it has broadcast, and
-- then its queue, are what they were and then the messages of all calls, each once and in order.
pub taken-run :
    {P : Type 0} (cs : List (Lookup × Message P)) (a : Adapter P)
    → is_some a.message_queue ≡ true
    → taken (run cs a) ≡ taken a ++ map (λ c. wrap a.component_name c.1) cs
taken-run [] a started = sym (append-nil (taken a))
taken-run ((l, m) ∷ cs) a started =
    let a' = (handle_message l m a).1 in
    let (still, once, name) = handle_message-Holds l m a started in
    let out = wrap a.component_name m in
    taken-run cs a' still
    ∙ ap (λ n. taken a' ++ map (λ c. wrap n c.1) cs) name
    ∙ ap (λ qs. qs ++ map (λ c. wrap a.component_name c.1) cs) once
    ∙ append_assoc (taken a) (out ∷ []) (map (λ c. wrap a.component_name c.1) cs)
