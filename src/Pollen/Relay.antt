-- ===== src/Pollen/Relay.antt =====
-- A message from one worker to another, through the page: pollen in the workers, hive in the page.
use joshlong_examples.Common.{
  ℕ, zero, suc, ◌<◌, ◌≡◌, refl, sym, ap, ◌∙◌, ◌⊎◌, inl, inr, arith, none, some, List, [], ◌∷◌, ◌++◌,
  if◌then◌else◌, truthy, All, length, replicate, lookup, append-nil, append_assoc,
}
use joshlong_examples.Hive.Defs.{
  Message, object, Listener, Thread, State, posted, get, normalise, forwarded, after, dispatch,
  listeners_of, on_message,
}
use joshlong_examples.Hive.Defs as Hive
use joshlong_examples.Hive.Messages.{
  SameRegistry, SameRegistry-trans, send-SameRegistry, send-log, handle_to,
}
use joshlong_examples.Pollen.Worker.{Worker, outgoing, send, lacks_identity, receive, receive_all}

get-SameRegistry : (n : ℕ) {s s' : State} → SameRegistry s s' → get n s' ≡ get n s
unfolding get
get-SameRegistry n same = ap (lookup n) same.by_id

-- What the listeners of a worker do with a message to another one: each of them hands it on.
dispatch-posts :
    (t u : Thread) (ls : List Listener) (r : Message) (s : State) (n : ℕ)
    → r.send_to ≡ some (suc n)
    → get (suc n) s ≡ some u
    → SameRegistry s (dispatch t ls r s)
      × ((dispatch t ls r s).log
          ≡ s.log ++ replicate (length ls) (posted u.ref (normalise u (object (forwarded r)))))
unfolding dispatch after
dispatch-posts t u [] r s n to found = (assumption refl, sym (append-nil s.log))
dispatch-posts t u (l ∷ ls) r s n to found =
    let event = posted u.ref (normalise u (object (forwarded r))) in
    let s' = Hive.send u (object (forwarded r)) none s in
    let same = send-SameRegistry u (object (forwarded r)) none s in
    let (kept, log) = dispatch-posts t u ls r s' n to (get-SameRegistry (suc n) same ∙ found) in
    let step : dispatch t (l ∷ ls) r s ≡ dispatch t ls r s' =
      ap (λ o. dispatch t ls r (after o s)) (handle_to t u l r s n to found) in
    (
      rw step (SameRegistry-trans same kept),
      ap (λ (x : State). x.log) step
          ∙ log
          ∙ ap (λ x. x ++ replicate (length ls) event) (send-log u (object (forwarded r)) none s)
          ∙ append_assoc s.log (event ∷ []) (replicate (length ls) event),
    )

received-receive_all :
    (ms : List Message) (w : Worker) → (receive_all ms w).received ≡ w.received ++ ms
unfolding receive_all receive
received-receive_all [] w = sym (append-nil w.received)
received-receive_all (m ∷ ms) w =
    received-receive_all ms (receive m w) ∙ append_assoc w.received (m ∷ []) ms

All-replicate : (P : Message → Type 0) (m : Message) → P m → (n : ℕ) → All P (replicate n m)
All-replicate P m h zero = tt
All-replicate P m h (suc n) = (h, All-replicate P m h n)

identity-receive :
    (i j : ℕ) (m : Message) (w : Worker)
    → w.identity ≡ some j
    → m.worker_id ≡ some i
    → (j ≡ 0) ⊎ (j ≡ i)
    → (receive m w).identity ≡ some i
unfolding receive lacks_identity
identity-receive i zero m w e h o = rw (e, lacks_identity) h
identity-receive i (suc j) m w e h o = rw (e, lacks_identity) (same o)
  where
    same : (suc j ≡ 0) ⊎ (suc j ≡ i) → some (suc j) ≡ some i
    same (inl z) = absurd (omega arith)
    same (inr s) = ap some s

settled :
    (i : ℕ) (ms : List Message) (w : Worker)
    → w.identity ≡ some i
    → All (λ (x : Message). x.worker_id ≡ some i) ms
    → (receive_all ms w).identity ≡ some i
unfolding receive_all
settled i [] w e h = e
settled i (m ∷ ms) w e (here, rest) =
    settled i ms (receive m w) (identity-receive i i m w e here (inr refl)) rest

-- A worker that has received a message, and only messages that name one id, has that id for its
-- identity, however many they were.
identity-receive_all :
    (i : ℕ) (m : Message) (ms : List Message) (w : Worker)
    → w.identity ≡ some 0
    → All (λ (x : Message). x.worker_id ≡ some i) (m ∷ ms)
    → (receive_all (m ∷ ms) w).identity ≡ some i
unfolding receive_all
identity-receive_all i m ms w new (here, rest) =
    settled i ms (receive m w) (identity-receive i 0 m w new here (inl refl)) rest

-- A worker whose id is not 0 sends an object to another worker of the page, by an id that is not 0:
-- it posts one message. The page hands it on once for every listener that the sender's worker object
-- has, of which there is one at least, with no other effect on its registry. The addressee, which had
-- no identity, receives that many copies, with the text and with the sender's id, and has its own id
-- for its identity afterwards.
pub send-on_message-receive_all :
    (t u : Thread) (s : State) (w w' : Worker) (m : Message) (n k : ℕ)
    → m.send_to ≡ some (suc n)
    → get (suc n) s ≡ some u
    → w.identity ≡ some (suc k)
    → w'.identity ≡ some 0
    → 0 < length (listeners_of t s)
    → (out arrived : Message) × (let copies = replicate (length (listeners_of t s)) arrived in
        ((send (object m) w).posted ≡ w.posted ++ out ∷ [])
        × SameRegistry s (on_message t out s)
        × ((on_message t out s).log
            ≡ s.log ++ replicate (length (listeners_of t s)) (posted u.ref arrived))
        × ((receive_all copies w').received ≡ w'.received ++ copies)
        × ((receive_all copies w').identity ≡ some u.id)
        × (arrived.message ≡ m.message)
        × (arrived.send_from ≡ some (suc k)))
unfolding send on_message normalise forwarded
send-on_message-receive_all t u s w w' m n k to found own new heard =
    let out = outgoing w (object m) in
    let arrived = normalise u (object (forwarded out)) in
    let (same, log) = dispatch-posts t u (listeners_of t s) out s n to found in
    let copies = replicate (length (listeners_of t s)) arrived in
    (
      out,
      arrived,
      (
        refl,
        same,
        log,
        received-receive_all copies w',
        known (length (listeners_of t s)) arrived refl heard,
        refl,
        from,
      ),
    )
  where
    from :
        (if truthy (if truthy m.send_to then w.identity else m.send_from)
          then (if truthy m.send_to then w.identity else m.send_from)
          else some u.id)
        ≡ some (suc k)
    from = rw (to, own) refl

    known :
        (c : ℕ) (arrived : Message)
        → arrived.worker_id ≡ some u.id
        → 0 < c
        → (receive_all (replicate c arrived) w').identity ≡ some u.id
    known zero arrived id h = absurd (omega arith)
    known (suc c) arrived id h =
        identity-receive_all u.id arrived (replicate c arrived) w' new
          (id, All-replicate (λ x. x.worker_id ≡ some u.id) arrived id c)
