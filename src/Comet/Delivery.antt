-- ===== src/Comet/Delivery.antt =====
-- A message on its way from the adapter's queue to a request that was suspended.
use mathlib.Core.List.{map-append}
use joshlong_examples.Common.{
  ◌+◌, ◌≤◌, ◌≡◌, refl, sym, ap, ◌∙◌, subst, arith, by_cases, Bool, true, false, Option, none, some,
  List, [], ◌∷◌, ◌++◌, ltb, leb, if◌then◌else◌, get_or, length, length-append, map, Text, codes,
}
use joshlong_examples.Comet.Mapper.{Converter, Request, written, write_message}
use joshlong_examples.Comet.Adapter.{
  Message, HttpBroadcastMessage, Adapter, Lookup, Handled, wrap, ensure_broadcaster_setup, drain,
  enqueue, handle_message,
}
use joshlong_examples.Comet.Requests.{
  Spring, Outcome, suspended, ignored, is_long_polling, equals_ignore_case, subscribe, publish,
  handle_request,
}
use joshlong_examples.Comet.Broadcaster.{
  broadcast_message, list, Resource, Delivery, delivered, class_cast, messaging_exception,
  messages_of, merge_messages, finish_broadcast, broadcast,
}
use joshlong_examples.Comet.Queue.{handle_message-enqueue, ltb-length_snoc}

-- The attribute RESUME_ON_BROADCAST of a request after it was handled.
abbrev pub resumes : {M P : Type 0} → Outcome M P → Option Bool
resumes (suspended t flush resume) = resume
resumes _ = none

-- The resource of a request that was handled, with a response that works.
abbrev pub resource_of : {M P : Type 0} → Request M → Outcome M P → Resource M
resource_of r o = record {
  accept = r.accept;
  resume_on_broadcast = resumes o;
  has_output_stream = true;
  takes_bytes = true;
}

merge_messages-map :
    {P : Type 0} (q : List (HttpBroadcastMessage P))
    → merge_messages (map broadcast_message q) ≡ some (map (λ b. b.message.payload) q)
unfolding merge_messages
merge_messages-map [] = refl
merge_messages-map {P} (b ∷ q) =
    ap {B = Option (List P)} (λ o. elim o [ none ↦ none | some ps ↦ some (b.message.payload ∷ ps) ])
      (merge_messages-map q)

-- A broadcast of messages that the converters can write reaches the resource.
broadcast-delivered :
    {M P : Type 0} (json : M) (converters : List (Converter M (List P) P)) (r : Resource M)
    (q : List (HttpBroadcastMessage P)) (t : Text)
    → ltb 0 (length q) ≡ true
    → r.has_output_stream ≡ true
    → r.takes_bytes ≡ true
    → write_message json converters r.accept (map (λ b. b.message.payload) q) ≡ written t
    → broadcast json converters r (list (map broadcast_message q))
      ≡ delivered t (get_or r.resume_on_broadcast false)
unfolding broadcast messages_of finish_broadcast
broadcast-delivered json converters r [] t pos stream takes can = absurd (cc)
broadcast-delivered {M} {P} json converters r (b ∷ q0) t pos stream takes can =
    let q : List (HttpBroadcastMessage P) = b ∷ q0 in
    let ps = map (λ b. b.message.payload) q in
    ap {B = Delivery}
      (λ o. elim o [
        | none ↦ class_cast
        | some payloads ↦
            if r.has_output_stream
            then finish_broadcast r (write_message json converters r.accept payloads)
            else messaging_exception
      ])
      (merge_messages-map q)
    ∙ ap
        (λ s.
          if s
          then finish_broadcast r (write_message json converters r.accept ps)
          else messaging_exception)
        stream
    ∙ ap (finish_broadcast r) can
    ∙ ap (λ s. if s then delivered t (get_or r.resume_on_broadcast false) else messaging_exception)
        takes

-- What handing over a queue leaves.
abbrev Broadcasts :
    {P : Type 0} → List (HttpBroadcastMessage P) → Adapter P → Handled × Adapter P → Type 0
Broadcasts q a (h, a') = (a'.broadcasts ≡ a.broadcasts ++ q ∷ []) × (a'.message_queue ≡ some [])

drain-Broadcasts :
    {P : Type 0} (l : Lookup) (q : List (HttpBroadcastMessage P)) (a : Adapter P)
    → ltb 0 (length q) ≡ true
    → a.has_broadcaster ≡ true
    → Broadcasts q a (drain l q a)
unfolding drain
drain-Broadcasts l q a pos has =
    by_cases (Broadcasts q a) a.has_broadcaster _ _
      (λ _.
        by_cases (Broadcasts q a) (ltb 0 (length q)) _ _ (λ _. (refl, refl))
          (λ none_there. absurd (cc)))
      (λ no. absurd (cc))

enqueue-Broadcasts :
    {P : Type 0} (l : Lookup) (q : List (HttpBroadcastMessage P)) (a : Adapter P)
    → ltb 0 (length q) ≡ true
    → a.message_threshold ≤ length q
    → l.finds ≡ true
    → Broadcasts q a (enqueue l q a)
unfolding enqueue ensure_broadcaster_setup
enqueue-Broadcasts l q a pos reached finds =
    by_cases (Broadcasts q a) (leb a.message_threshold (length q)) _ _
      (λ _.
        by_cases (λ x. Broadcasts q a (drain l q x)) a.has_broadcaster _ _
          (λ has. drain-Broadcasts l q a pos has)
          (λ _. drain-Broadcasts l q (record a { has_broadcaster = l.finds }) pos finds))
      (λ short. absurd (ground arith))

-- A GET leaves its resource with the attribute RESUME_ON_BROADCAST exactly if its transport is long
-- polling.
resumes-handle_request :
    {M C P : Type 0} (sp : Spring M) (converters : List (Converter M C P)) (name id : Text)
    (r : Request M)
    → equals_ignore_case r.method (codes "GET") ≡ true
    → get_or (resumes ((handle_request sp converters name (some id) r).1)) false
      ≡ is_long_polling sp r
unfolding handle_request subscribe
resumes-handle_request {M} {C} {P} sp converters name id r get =
    ap {B = Bool}
      (λ b.
        get_or
          (resumes (
            if b
            then subscribe sp converters r
            else if equals_ignore_case r.method (codes "POST")
            then publish sp converters r
            else ignored))
          false)
      get
    ∙ resumed (is_long_polling sp r)
  where
    resumed : (b : Bool) → get_or (if b then some true else none) false ≡ b
    resumed true = refl
    resumed false = refl

-- From the channel to the browser. A message that fills the queue of an adapter that finds a
-- broadcaster: the queue is handed over as one list and is empty afterwards. Where a request was a
-- GET, its response works, and the converters write the payloads of that list, in order, for a type
-- that it accepts: broadcasting the list to its resource writes just that, and resumes the resource
-- if and only if the request's transport is long polling.
pub broadcast-handle_message :
    {M C P : Type 0} (sp : Spring M) (readers : List (Converter M C P)) (json : M)
    (writers : List (Converter M (List P) P)) (name id : Text) (r : Request M) (l : Lookup)
    (m : Message P) (a : Adapter P) (q : List (HttpBroadcastMessage P)) (t : Text)
    → equals_ignore_case r.method (codes "GET") ≡ true
    → a.message_queue ≡ some q
    → a.message_threshold ≤ length q + 1
    → l.finds ≡ true
    → write_message json writers r.accept (map (λ b. b.message.payload) q ++ m.payload ∷ [])
      ≡ written t
    → let resource = resource_of r (handle_request sp readers name (some id) r).1 in
      let a' = (handle_message l m a).1 in
      (batch : List (HttpBroadcastMessage P)) × (a'.broadcasts ≡ a.broadcasts ++ batch ∷ [])
      × (a'.message_queue ≡ some [])
      × (broadcast json writers resource (list (map broadcast_message batch))
          ≡ delivered t (is_long_polling sp r))
unfolding wrap
broadcast-handle_message {P = P} sp readers json writers name id r l m a q t get e reached finds
      can =
    let out = wrap a.component_name m in
    let resource = resource_of r (handle_request sp readers name (some id) r).1 in
    let batch = q ++ out ∷ [] in
    let len = length-append q (out ∷ []) in
    let (handed, empty) =
      subst (Broadcasts batch a) (sym (handle_message-enqueue l m a q e))
        (enqueue-Broadcasts l batch a (ltb-length_snoc q out) (ground arith) finds) in
    (
      batch,
      handed,
      empty,
      broadcast-delivered json writers resource batch t (ltb-length_snoc q out) refl refl (
            ap (write_message json writers r.accept)
              (map-append (λ b. b.message.payload) q (out ∷ []))
            ∙ can)
          ∙ ap (delivered t) (resumes-handle_request sp readers name id r get),
    )
