-- ===== src/Comet/Batches.antt =====
-- How large the broadcasts of the atmosphere application's adapter are, and how long its queue gets.
use joshlong_examples.Common.{
  ℕ, ◌≤◌, ◌<◌, ◌≡◌, refl, sym, subst, inl, inr, arith, true, List, [], ◌∷◌, ◌++◌, ltb, leb,
  if◌then◌else◌, is_some, get_or, length, length-append, Option-cases, All, All-append, by_cases,
}
use joshlong_examples.Comet.Adapter.{
  Message, HttpBroadcastMessage, Adapter, Lookup, Handled, wrap, ensure_broadcaster_setup, drain,
  enqueue, handle_message,
}
use joshlong_examples.Comet.Queue.{queue, run, handle_message-enqueue}

-- The number of messages that fill a queue.
abbrev pub batch : ℕ → ℕ
batch t = if leb t 1 then 1 else t

-- Every broadcast had a full batch, and the queue is shorter than one.
abbrev pub IsBatched : {P : Type 0} → ℕ → Adapter P → Type 0
IsBatched t a =
    All (λ b. length b ≡ batch t) a.broadcasts
    × (length (queue a) < batch t)
    × (is_some a.message_queue ≡ true)
    × (a.message_threshold ≡ t)

drain-IsBatched :
    {P : Type 0} (l : Lookup) (q : List (HttpBroadcastMessage P)) (a : Adapter P) (t : ℕ)
    → All (λ b. length b ≡ batch t) a.broadcasts
    → length q ≡ batch t
    → a.message_threshold ≡ t
    → a.has_broadcaster ≡ true
    → IsBatched t (drain l q a).1
unfolding drain
drain-IsBatched {P} l q a t all full same has =
    by_cases {A = Handled × Adapter P} (λ r. IsBatched t r.1) a.has_broadcaster _ _
      (λ _.
        by_cases {A = Handled × Adapter P} (λ r. IsBatched t r.1) (ltb 0 (length q)) _ _
          (λ _. (
            All-append (λ b. length b ≡ batch t) a.broadcasts (q ∷ []) all (full, tt),
            ground arith,
            refl,
            same,
          ))
          (λ _. (all, ground arith, refl, same)))
      (λ no. absurd (cc))

enqueue-IsBatched :
    {P : Type 0} (l : Lookup) (q : List (HttpBroadcastMessage P)) (a : Adapter P) (t : ℕ)
    → All (λ b. length b ≡ batch t) a.broadcasts
    → 0 < length q
    → length q ≤ batch t
    → a.message_threshold ≡ t
    → l.finds ≡ true
    → IsBatched t (enqueue l q a).1
unfolding enqueue ensure_broadcaster_setup
enqueue-IsBatched {P} l q a t all some_message fits same finds =
    by_cases {A = Handled × Adapter P} (λ r. IsBatched t r.1) (leb a.message_threshold (length q)) _
      _
      (λ full.
        by_cases (λ x. IsBatched t (drain l q x).1) a.has_broadcaster _ _
          (λ has. drain-IsBatched l q a t all (ground arith) same has)
          (λ _.
            drain-IsBatched l q (record a { has_broadcaster = l.finds }) t all (ground arith) same
              finds))
      (λ short. (all, ground arith, refl, same))

handle_message-IsBatched :
    {P : Type 0} (l : Lookup) (m : Message P) (a : Adapter P) (t : ℕ)
    → l.finds ≡ true
    → IsBatched t a
    → IsBatched t (handle_message l m a).1
handle_message-IsBatched l m a t finds (all, short, started, same) =
    elim (Option-cases a.message_queue) [
      | inl none_yet ↦ absurd (cc)
      | inr (q, e) ↦
          let out = wrap a.component_name m in
          let len = length-append q (out ∷ []) in
          let room : length q < batch t = subst (λ o. length (get_or o []) < batch t) e short in
          subst (λ r. IsBatched t r.1) (sym (handle_message-enqueue l m a q e))
            (enqueue-IsBatched l (q ++ out ∷ []) a t all (ground arith) (ground arith) same finds)
    ]

-- Where each call finds a broadcaster, every broadcast has exactly as many messages as the
-- threshold says, or one with a threshold of 0, and the queue is shorter than that after every call,
-- if so before.
pub run-IsBatched :
    {P : Type 0} (cs : List (Lookup × Message P)) (a : Adapter P) (t : ℕ)
    → All (λ (c : Lookup × Message P). c.0.finds ≡ true) cs
    → IsBatched t a
    → IsBatched t (run cs a)
run-IsBatched [] a t found h = h
run-IsBatched ((l, m) ∷ cs) a t (finds, found) h =
    run-IsBatched cs (handle_message l m a).1 t found (handle_message-IsBatched l m a t finds h)
