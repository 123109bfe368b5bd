-- ===== src/Atmosphere/Streams.antt =====
-- What a streaming connection of jquery.atmosphere.js tells the page.
use joshlong_examples.Common.{
  ℕ, ◌≡◌, refl, sym, ap, ◌∙◌, arith, Bool, true, false, not, ◌&&◌, some, List, [], ◌∷◌, ◌++◌,
  append-nil, append_assoc, ◌==◌, if◌then◌else◌, length, get_elem?, Text, codes, JQuery, contains,
  index_of, starts_with, ◌≤◌, set, get_elem?-set,
}
use joshlong_examples.Atmosphere.Defs.{
  streaming, same_transport, Browser, Request, Response, Connection, Event, State, Result, done,
  ◌>>=◌, set_response, message_of, next_chunk, update_request, Level, message_received,
  message_published,
}
use joshlong_examples.Atmosphere.Transport.{Reading, deliver, read_connection, on_ready_state}
use joshlong_examples.Atmosphere.Bodies.{shown, next_chunk_pair, next_chunk_lost}
use joshlong_examples.Atmosphere.Handlers.{left}
use joshlong_examples.Atmosphere.Callbacks.{calls, invoke_callback_lem}

-- What the page is told with a piece of a streamed text.
abbrev pub told : Request → Text → Response → Response
told r piece q = record q {
  status = 200;
  body = message_of piece;
  stage = if r.suspend then message_received else message_published;
}

-- The state after a streaming connection has shown a further text.
abbrev pub after_text : ℕ → Request → Text → State → State
after_text i r text s =
    let q = told r (next_chunk r.last_index text) s.response in
    record s {
      requests = set s.requests i (record r { last_index = some (length text) });
      response = q;
      log = s.log ++ calls s.callbacks q;
    }

deliver-streaming :
    (jq : JQuery) (i : ℕ) (r : Request) (text : Text) (level : Level) (s : State)
    → get_elem? s.requests i ≡ some r
    → same_transport r.transport streaming ≡ true
    → s.log_level ≡ some level
    → contains (codes "<!--") (next_chunk r.last_index text) ≡ false
    → deliver jq i r (record { ready_state = 3; status = 200; text = text }) s
      ≡ done (after_text i r text s)
unfolding deliver set_response update_request
deliver-streaming jq i r text level s e t l n =
    rw (t, n, e, update_request) (invoke_callback_lem jq _ level l)

reads_further :
    (jq : JQuery) (b : Browser) (c : Connection) (r : Request) (text : Text) (level : Level)
    (s : State)
    → b.msie ≡ false
    → s.aborting ≡ some false
    → get_elem? s.requests c.request ≡ some r
    → same_transport r.transport streaming ≡ true
    → s.log_level ≡ some level
    → contains (codes "<!--") (next_chunk r.last_index text) ≡ false
    → on_ready_state jq b c (record { ready_state = 3; status = 200; text = text }) s
      ≡ done (after_text c.request r text s)
unfolding on_ready_state read_connection
reads_further jq b c r text level s m a e t l n =
    ap (λ o. read_connection jq b c x s o (get_elem? s.requests c.request)) a
    ∙ ap (λ o. read_connection jq b c x s (some false) o) e
    ∙ at_three
    ∙ deliver-streaming jq c.request r text level s e t l n
  where
    x : Reading
    x = record { ready_state = 3; status = 200; text = text }

    at_three : read_connection jq b c x s (some false) (some r) ≡ deliver jq c.request r x s
    at_three = rw m refl

-- The texts that a connection shows, one state change after another.
abbrev pub read_all : JQuery → Browser → Connection → List Text → State → Result
read_all jq b c [] s = done s
read_all jq b c (t ∷ ts) s =
    on_ready_state jq b c (record { ready_state = 3; status = 200; text = t }) s >>= λ s'.
    read_all jq b c ts s'

-- The calls of callbacks that pieces of a streamed text amount to.
abbrev pub told_all : Request → List Text → Response → List ℕ → List Event
told_all r [] q fs = []
told_all r (p ∷ ps) q fs = calls fs (told r p q) ++ told_all r ps q fs

abbrev pub is_plain : List Text → Bool
is_plain [] = true
is_plain (p ∷ ps) = not (contains (codes "<!--") p) && is_plain ps

told_all-told :
    (r : Request) (p : Text) (ps : List Text) (q : Response) (fs : List ℕ)
    → told_all r ps (told r p q) fs ≡ told_all r ps q fs
told_all-told r p [] q fs = refl
told_all-told r p (x ∷ xs) q fs =
    ap (λ rest. calls fs (told r x q) ++ rest) (told_all-told r p xs q fs)

-- On another browser than Internet Explorer, where the flag and the log level have been set: a
-- streaming connection whose text grows by one piece after another, from where it was read last,
-- calls every callback with the message of every piece, each once and in order, and no handler
-- throws; no piece may contain `<!--`.
pub read_all-shown :
    (jq : JQuery) (b : Browser) (c : Connection) (r : Request) (level : Level) (before : Text)
    (ps : List Text) (s : State)
    → b.msie ≡ false
    → s.aborting ≡ some false
    → s.log_level ≡ some level
    → get_elem? s.requests c.request ≡ some (record r { last_index = some (length before) })
    → same_transport r.transport streaming ≡ true
    → is_plain ps ≡ true
    → let end_ = left (read_all jq b c (shown before ps) s) in
      (read_all jq b c (shown before ps) s ≡ done end_)
      × (end_.log ≡ s.log ++ told_all r ps s.response s.callbacks)
read_all-shown jq b c r level before [] s m a l e t plain = (refl, sym (append-nil s.log))
read_all-shown jq b c r level before (p ∷ ps) s m a l e t plain =
    let r0 : Request = record r { last_index = some (length before) } in
    let text = before ++ p in
    let s2 = after_text c.request r0 text s in
    let piece = next_chunk_pair before p in
    let plain_p : contains (codes "<!--") p ≡ false = ground arith in
    let plain_ps : is_plain ps ≡ true = ground arith in
    let first : on_ready_state jq b c (record { ready_state = 3; status = 200; text = text }) s
        ≡ done s2 =
      reads_further jq b c r0 text level s m a e t l (rw piece plain_p) in
    let index : get_elem? s2.requests c.request
        ≡ some (record r { last_index = some (length text) }) =
      shown_index in
    let (ends, logged) = read_all-shown jq b c r level text ps s2 m a l index t plain_ps in
    let whole : read_all jq b c (shown before (p ∷ ps)) s ≡ read_all jq b c (shown text ps) s2 =
      ap (λ z. z >>= λ s'. read_all jq b c (shown text ps) s') first in
    rw whole (ends, logged ∙ told_so_far (next_chunk (some (length before)) text) piece)
  where
    told_so_far :
        (chunk : Text)
        → chunk ≡ p
        → (s.log ++ calls s.callbacks (told r chunk s.response))
            ++ told_all r ps (told r chunk s.response) s.callbacks
          ≡ s.log
            ++ (calls s.callbacks (told r p s.response) ++ told_all r ps s.response s.callbacks)
    told_so_far chunk same =
        append_assoc s.log (calls s.callbacks (told r chunk s.response))
          (told_all r ps (told r chunk s.response) s.callbacks)
        ∙ ap (λ rest. s.log ++ (calls s.callbacks (told r chunk s.response) ++ rest))
            (told_all-told r chunk ps s.response s.callbacks)
        ∙ ap
            (λ x.
              s.log
              ++ (calls s.callbacks (told r x s.response) ++ told_all r ps s.response s.callbacks))
            same

    shown_index :
        get_elem?
          (set s.requests c.request (record r { last_index = some (length (before ++ p)) }))
          c.request
        ≡ some (record r { last_index = some (length (before ++ p)) })
    shown_index =
        let itself : (c.request == c.request) ≡ true = ground arith in
        get_elem?-set s.requests c.request c.request
          (record r { last_index = some (length (before ++ p)) }) e
        ∙ rw itself refl

no_message : (message_of [] ≡ []) × (contains (codes "<!--") [] ≡ false)
unfolding message_of contains index_of starts_with
no_message = (refl, refl)

-- A streaming connection whose text is no longer than the index from which it is read, as that of a
-- new connection under an index that was kept, tells the page an empty message.
reads_lost :
    (jq : JQuery) (b : Browser) (c : Connection) (r : Request) (level : Level) (n : ℕ) (text : Text)
    (s : State)
    → b.msie ≡ false
    → s.aborting ≡ some false
    → s.log_level ≡ some level
    → get_elem? s.requests c.request ≡ some (record r { last_index = some n })
    → same_transport r.transport streaming ≡ true
    → length text ≤ n
    → let x : Reading = record { ready_state = 3; status = 200; text = text } in
      let end_ = left (on_ready_state jq b c x s) in
      (on_ready_state jq b c x s ≡ done end_)
      × (end_.response.body ≡ [])
      × (end_.log ≡ s.log ++ calls s.callbacks end_.response)
reads_lost jq b c r level n text s m a l e t short =
    let nothing = next_chunk_lost n text short in
    let ends =
      reads_further jq b c (record r { last_index = some n }) text level s m a e t l
        (rw nothing no_message.1) in
    rw ends (refl, rw nothing no_message.0, refl)
