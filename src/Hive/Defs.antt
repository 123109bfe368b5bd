-- ===== src/Hive/Defs.antt =====
-- The private variables of `jQuery.Hive` as a record, and its functions over that record.
--
-- A worker object has fixed properties, set once by `create` (`Thread`), and properties that
-- change (`Mutable`), kept in `objects` at the worker's reference, so that two registries that
-- hold one worker see the same changes. What the browser sees is the list `log`.
use joshlong_examples.Common.{
  ℕ, zero, suc, ◌+◌, ◌-◌, Bool, not, ◌&&◌, Option, none, some, List, [], ◌∷◌, ◌++◌, ltb, ◌==◌,
  if◌then◌else◌, get_or, truthy, length, get_elem?, set, lookup, insert, remove, Text, nonempty,
  JQuery,
}

-- A function of the page, by name.
abbrev pub Callback : Type 0
Callback = ℕ

-- `jQuery.Hive.options`
pub record Options : Type 0 where
  pub count : ℕ
  pub worker : Text
  pub receive : Callback
  pub created : Callback
  pub error : Callback

-- The argument of `create`: each property may be missing.
pub record CreateOptions : Type 0 where
  pub count : Option ℕ
  pub worker : Option Text
  pub receive : Option Callback
  pub created : Option Callback
  pub error : Option Callback

-- What travels between the page and a worker, after `JSON.parse`. A missing number and NaN are
-- both `none`: either is false as a condition.
pub record Message : Type 0 where
  pub message : Text
  pub send_to : Option ℕ
  pub send_from : Option ℕ
  pub worker_id : Option ℕ

-- The argument of `send`: a string or an array, or an object.
pub data Sent : Type 0 where
  plain : Text → Sent
  object : Message → Sent

-- A listener of a worker: `_wrapReceived`, which reads `_options.receive` when it runs, or the
-- callback that was handed to `send`.
pub data Listener : Type 0 where
  wrapped : Listener
  direct : Callback → Listener

pub record Thread : Type 0 where
  pub ref : ℕ
  pub id : ℕ
  pub file : Text
  pub onerror : Callback

pub record Mutable : Type 0 where
  pub listeners : List Listener
  pub last_message : Option Message

pub record FnCache : Type 0 where
  pub active : List Listener
  pub inactive : List Listener

pub data Event : Type 0 where
  started : Thread → Event
  posted : ℕ → Message → Event
  received : Callback → ℕ → Message → Event
  created_with : Callback → List Thread → Event

pub record State : Type 0 where
  pub options : Options
  pub threads_by_id : List (ℕ × Thread)
  pub threads : List Thread
  pub fn_cache : List (ℕ × FnCache)
  pub last_thread_int : ℕ
  pub objects : List Mutable
  pub log : List Event

pub data Error : Type 0 where
  no_worker_file not_an_object : Error

pub data Result (A : Type 0) : Type 0 where
  ok : A → Result A
  throw : Error → Result A

-- The state after the script is loaded; 0 stands for `jQuery.noop` and the empty error handler.
unfoldable pub initial : State
initial = record {
  options = record { count = 1; worker = []; receive = 0; created = 0; error = 0 };
  threads_by_id = [];
  threads = [];
  fn_cache = [];
  last_thread_int = 0;
  objects = [];
  log = [];
}

-- `jQuery.extend(jQuery.Hive.options, options)`, which writes into `jQuery.Hive.options`.
unfoldable pub extend_options : JQuery → Options → CreateOptions → Options
extend_options jq d o = record {
  count = jq.extend ℕ d.count o.count;
  worker = jq.extend Text d.worker o.worker;
  receive = jq.extend Callback d.receive o.receive;
  created = jq.extend Callback d.created o.created;
  error = jq.extend Callback d.error o.error;
}

-- The body of the loop of `create`.
unfoldable pub start_thread : ℕ → State → State
start_thread i s =
    let thread : Thread = record {
      ref = length s.objects;
      id = i;
      file = s.options.worker;
      onerror = s.options.error;
    } in
    record s {
      objects = s.objects ++ record { listeners = wrapped ∷ []; last_message = none } ∷ [];
      log = s.log ++ started thread ∷ [];
      fn_cache = insert i (record { active = wrapped ∷ []; inactive = [] }) s.fn_cache;
      threads_by_id = insert i thread s.threads_by_id;
      last_thread_int = i;
      threads = s.threads ++ thread ∷ [];
    }

-- `for ( ; i < _options.count; i++ )`, by the rounds that are left.
unfoldable pub start_threads : ℕ → ℕ → State → State
start_threads zero i s = s
start_threads (suc rounds) i s = start_threads rounds (i + 1) (start_thread i s)

-- `options.count ? options.count : 1`
unfoldable pub requested : CreateOptions → ℕ
requested o = if truthy o.count then get_or o.count 1 else 1

-- Where the loop of `create` begins, and the bound that it runs to.
unfoldable pub first_id : State → ℕ
first_id s = if ltb 0 (length s.threads) then s.last_thread_int + 1 else 0

unfoldable pub loop_bound : State → ℕ → ℕ
loop_bound s count = if ltb 0 (length s.threads) then s.last_thread_int + count + 1 else count

-- The options as `create` leaves them, count included.
unfoldable pub merge_options : JQuery → CreateOptions → State → Options
unfolding extend_options requested loop_bound
merge_options jq o s = record (extend_options jq s.options o) { count = loop_bound s (requested o) }

-- `create` past its check: the options are merged, the threads are started, and the callback
-- `created` is called with all threads.
unfoldable pub start_all : JQuery → CreateOptions → State → State
unfolding merge_options start_threads start_thread first_id
start_all jq o s =
    let i = first_id s in
    let merged = merge_options jq o s in
    let s' = start_threads (merged.count - i) i (record s { options = merged }) in
    record s' { log = s'.log ++ created_with s'.options.created s'.threads ∷ [] }

-- The check of `create`: no worker file is known.
unfoldable pub lacks_file : CreateOptions → State → Bool
lacks_file o s = not (nonempty s.options.worker) && not (nonempty (get_or o.worker []))

unfoldable pub create : JQuery → CreateOptions → State → Result (List Thread × State)
unfolding start_all lacks_file
create jq o s =
    if lacks_file o s
    then throw no_worker_file
    else (let s' = start_all jq o s in ok (s'.threads, s'))

-- The callback of `jQuery.map` in `destroy`.
unfoldable pub other_than : ℕ → Thread → Option Thread
other_than id t = if not (t.id == id) then some t else none

unfoldable pub destroy : JQuery → Option ℕ → State → List Thread × State
unfolding other_than
destroy jq id s =
    if truthy id
    then (let k = get_or id 0 in
        let rest = jq.map Thread Thread s.threads (other_than k) in
        (
          rest,
          record s {
            threads_by_id = remove k s.threads_by_id;
            fn_cache = remove k s.fn_cache;
            threads = rest;
          },
        ))
    else (
      [],
      record s {
        options = record (s.options) { count = 0 };
        threads = [];
        threads_by_id = [];
        fn_cache = [];
      },
    )

-- `get(id)` with an id.
unfoldable pub get : ℕ → State → Option Thread
get id s = lookup id s.threads_by_id

-- `get()`.
unfoldable pub get_all : State → List Thread
get_all s = s.threads

-- `worker.addEventListener('message', …)` with `callback` in the handler.
unfoldable pub add_message_listener : Thread → Listener → State → State
add_message_listener t l s = elim (get_elem? s.objects t.ref) [
  | none ↦ s
  | some m ↦ record s {
    objects = set s.objects t.ref (record m { listeners = m.listeners ++ l ∷ [] });
  }
]

-- The object that `send` posts.
unfoldable pub normalise : Thread → Sent → Message
normalise t (plain text) = record {
  message = text;
  send_to = none;
  send_from = some t.id;
  worker_id = some t.id;
}
normalise t (object m) = record m {
  send_from = if truthy m.send_from then m.send_from else some t.id;
  worker_id = some t.id;
}

unfoldable pub post : Thread → Message → State → State
post t m s =
    let log = s.log ++ posted t.ref m ∷ [] in
    elim (get_elem? s.objects t.ref) [
      | none ↦ record s { log = log }
      | some o ↦ record s {
        log = log;
        objects = set s.objects t.ref (record o { last_message = some m });
      }
    ]

unfoldable pub send : Thread → Sent → Option Callback → State → State
unfolding add_message_listener normalise post
send t sent callback s =
    post t (normalise t sent)
      (elim callback [ none ↦ s | some f ↦ add_message_listener t (direct f) s ])

-- The message that the handler hands on to another worker.
unfoldable pub forwarded : Message → Message
forwarded r = record {
  message = r.message;
  send_to = r.send_to;
  send_from = r.send_from;
  worker_id = none;
}

-- The callback that a listener stands for when it runs.
unfoldable pub callback_of : State → Listener → Callback
callback_of s wrapped = s.options.receive
callback_of s (direct f) = f

-- The handler of `_addMessageListener` on a parsed message. `get` may find no worker, and then
-- `undefined.send` throws.
unfoldable pub handle : Thread → Listener → Message → State → Result State
unfolding forwarded callback_of get send
handle t l r s =
    if truthy r.send_to
    then elim (get (get_or r.send_to 0) s) [
      | none ↦ throw not_an_object
      | some target ↦ ok (send target (object (forwarded r)) none s)
    ]
    else ok (record s { log = s.log ++ received (callback_of s l) t.ref r ∷ [] })

-- The state after a handler ran: one that throws has changed nothing, and the browser goes on.
unfoldable pub after : Result State → State → State
after (throw e) s = s
after (ok s') s = s'

-- The handlers of a worker's listeners on one message, in the order in which they were added.
unfoldable pub dispatch : Thread → List Listener → Message → State → State
unfolding after handle
dispatch t [] r s = s
dispatch t (l ∷ ls) r s = dispatch t ls r (after (handle t l r s) s)

unfoldable pub listeners_of : Thread → State → List Listener
listeners_of t s = elim (get_elem? s.objects t.ref) [ none ↦ [] | some m ↦ m.listeners ]

-- The event `message` of a worker.
unfoldable pub on_message : Thread → Message → State → State
unfolding dispatch listeners_of
on_message t r s = dispatch t (listeners_of t s) r s

-- The argument of `send` after a call: an object has been changed.
unfoldable pub changed : Thread → Sent → Sent
unfolding normalise
changed t (plain text) = plain text
changed t (object m) = object (normalise t (object m))

-- `jQuery.fn.send`: the threads of a selection, in order; all are sent the one object.
unfoldable pub send_each : List Thread → Sent → Option Callback → State → State
unfolding send changed
send_each [] sent callback s = s
send_each (t ∷ ts) sent callback s = send_each ts (changed t sent) callback (send t sent callback s)
