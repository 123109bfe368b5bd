-- ===== src/Atmosphere/Defs.antt =====
-- The state of `jQuery.atmosphere`, and its functions below the transports: callbacks, logging and
-- the extraction of a message body.
--
-- A request is a mutable object that closures keep, so requests stand in a list and are named by
-- their index; so do the connections (`XMLHttpRequest` objects), each with the request that its
-- handlers close over. `abordingConnection` and `logLevel` are globals that no statement declares:
-- they do not exist (`none`) until they are first written, and reading them before throws.
use joshlong_examples.Common.{
  ℕ, ◌+◌, Bool, false, Option, none, some, List, [], ◌∷◌, ◌++◌, ◌==◌, if◌then◌else◌, get_or, length,
  get_elem?, set, Text, codes, JQuery, index_of, contains, substring,
}

pub data Transport : Type 0 where
  polling long_polling streaming websocket : Transport

unfoldable pub transport_code : Transport → ℕ
transport_code polling = 0
transport_code long_polling = 1
transport_code streaming = 2
transport_code websocket = 3

-- `a == b`
unfoldable pub same_transport : Transport → Transport → Bool
same_transport a b = transport_code a == transport_code b

pub data Level : Type 0 where
  info debug warn : Level

-- What the page's browser has.
pub record Browser : Type 0 where
  pub msie : Bool
  pub event_stream : Bool  -- `window.addEventStream`
  pub web_socket : Bool  -- `window.WebSocket`

pub record Request : Type 0 where
  pub url : Text
  pub method : Text
  pub content : Text  -- the property `data`
  pub headers : List (Text × Text)
  pub suspend : Bool
  pub max_request : ℕ
  pub request_count : ℕ
  pub last_index : Option ℕ
  pub fallback_transport : Option Transport
  pub transport : Transport
  pub timeout : ℕ
  pub log_level : Option Level
  pub timer : Option ℕ  -- the property `id`

-- The properties that a caller hands over; each may be missing.
pub record RequestOptions : Type 0 where
  pub url : Option Text
  pub method : Option Text
  pub content : Option Text
  pub headers : Option (List (Text × Text))
  pub suspend : Option Bool
  pub max_request : Option ℕ
  pub request_count : Option ℕ
  pub last_index : Option ℕ
  pub fallback_transport : Option Transport
  pub transport : Option Transport
  pub timeout : Option ℕ
  pub log_level : Option Level
  pub timer : Option ℕ

-- A whole request as such an argument.
unfoldable pub as_options : Request → RequestOptions
as_options r = record {
  url = some r.url;
  method = some r.method;
  content = some r.content;
  headers = some r.headers;
  suspend = some r.suspend;
  max_request = some r.max_request;
  request_count = some r.request_count;
  last_index = r.last_index;
  fallback_transport = r.fallback_transport;
  transport = some r.transport;
  timeout = some r.timeout;
  log_level = r.log_level;
  timer = r.timer;
}

-- The property `state` of the response.
pub data Stage : Type 0 where
  message_received message_published openning closed error : Stage

-- The function `response.push`; `websocket_push` closes over the request at its index.
pub data Push : Type 0 where
  no_push poll_push stream_push : Push
  websocket_push : ℕ → Push

pub record Response : Type 0 where
  pub status : ℕ
  pub body : Text
  pub stage : Stage
  pub transport : Transport
  pub push : Push

pub record Connection : Type 0 where
  pub request : ℕ
  pub transport : Transport

pub data Event : Type 0 where
  opened : ℕ → Connection → Event
  aborted : ℕ → Event
  called : ℕ → Response → Event
  frame_opened : Text → Event
  source_opened : Text → Event
  socket_opened : Text → Event
  socket_sent : Text → Event
  socket_closed : Event
  timer_set : ℕ → ℕ → Event
  timer_cleared : Option ℕ → Event
  reconnections_used_up : Event
  alerted : Event

pub record State : Type 0 where
  pub requests : List Request
  pub current : Option ℕ
  pub response : Response
  pub active_request : Option ℕ
  pub aborting : Option Bool
  pub log_level : Option Level
  pub active_transport : Option Transport
  pub has_socket : Bool
  pub callbacks : List ℕ
  pub connections : List Connection
  pub log : List Event

-- A call ends, or throws with the state as it is then.
pub data Result : Type 0 where
  done : State → Result
  reference_error : State → Result

infixl 5 ◌>>=◌
abbrev pub ◌>>=◌ : Result → (State → Result) → Result
done s >>= f = f s
reference_error s >>= f = reference_error s

unfoldable pub initial : State
initial = record {
  requests = [];
  current = none;
  response = record {
    status = 200;
    body = [];
    stage = message_received;
    transport = polling;
    push = no_push;
  };
  active_request = none;
  aborting = none;
  log_level = none;
  active_transport = none;
  has_socket = false;
  callbacks = [];
  connections = [];
  log = [];
}

unfoldable pub emit : Event → State → State
emit e s = record s { log = s.log ++ e ∷ [] }

unfoldable pub set_response : Response → State → State
set_response r s = record s { response = r }

-- `addCallback`
unfoldable pub add_callback : JQuery → ℕ → State → State
add_callback jq f s =
    if jq.in_array f s.callbacks then s else record s { callbacks = s.callbacks ++ f ∷ [] }

-- `removeCallback`: it reads `index`, which does not exist.
unfoldable pub remove_callback : JQuery → ℕ → State → Result
remove_callback jq f s = if jq.in_array f s.callbacks then reference_error s else done s

-- `invokeCallback(jQuery.atmosphere.response)`, whose first statement reads `logLevel`.
unfoldable pub invoke_callback : JQuery → State → Result
invoke_callback jq s = elim s.log_level [
  | none ↦ reference_error s
  | some level ↦ done (jq.each ℕ State (λ f t. emit (called f s.response) t) s.callbacks s)
]

-- The message between `('` and `')` of a body that calls `parent.callback`. Where one of the two is
-- not found, `indexOf` is -1: the start is then 1, and a negative end counts as 0.
unfoldable pub message_of : Text → Text
message_of body =
    if contains (codes "parent.callback") body
    then (let start : ℕ = elim (index_of (codes "('") body) [ none ↦ 1 | some i ↦ i + 2 ] in
        let end_ = get_or (index_of (codes "')") body) 0 in substring start end_ body)
    else body

-- `responseText.substring(request.lastIndex, responseText.length)`
unfoldable pub next_chunk : Option ℕ → Text → Text
next_chunk last_index text = substring (get_or last_index 0) (length text) text

unfoldable pub update_request : ℕ → (Request → Request) → State → State
update_request i f s = elim (get_elem? s.requests i) [
  | none ↦ s
  | some r ↦ record s { requests = set s.requests i (f r) }
]
