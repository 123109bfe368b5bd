-- ===== src/Pollen/Tests.antt =====
-- jquery.hive.pollen.js at concrete inputs.
use joshlong_examples.Common.{
  ℕ, suc, ◌≤◌, ◌<◌, ◌↔◌, ◌≡◌, ◌++◌, refl, arith, true, false, length, replicate, none, some, List,
  [], ◌∷◌, lookup, Text, codes, text_eq,
}
use joshlong_examples.Pollen.Arrays.{in_arr, unique_loop, unique}
use joshlong_examples.Hive.Defs.{
  Message, object, wrapped, direct, Thread, Mutable, State, posted, get, listeners_of, on_message,
}
use joshlong_examples.Hive.Messages.{SameRegistry}
use joshlong_examples.Pollen.Strings.{is_space, trim_left, all_space, trim_right, trim}
use joshlong_examples.Pollen.Trimmed.{begins_bare, ends_bare, trim_lem}
use joshlong_examples.Pollen.Values.{
  null, bool, num, text, arr, Items, nil, cons, Fields, end, field,
}
use joshlong_examples.Pollen.Lists.{compact}
use joshlong_examples.Common.Int.{pos, negsuc}
use joshlong_examples.Pollen.Query.{clamp, end_or, slice, slice_loop}
use joshlong_examples.Pollen.Slices.{At, FromStart, BeforeEnd, slice_total}
use joshlong_examples.Pollen.Ajax.{string, AjaxRequest}
use joshlong_examples.Pollen.Requests.{bare}
use joshlong_examples.Pollen.Worker.{Worker, fresh_worker, send, receive_all}
use joshlong_examples.Pollen.Relay.{send-on_message-receive_all}

abbrev letters : List Text
letters = codes "b" ∷ codes "a" ∷ codes "b" ∷ []

abbrev more : List (List Text)
more = (codes "c" ∷ codes "a" ∷ []) ∷ []

unique-letters : unique (λ t. t) letters ≡ codes "b" ∷ codes "a" ∷ []
unfolding unique unique_loop in_arr text_eq
unique-letters = refl

abbrev two_keys : List ℕ
two_keys = 4 ∷ 7 ∷ []

abbrev two_vals : List Text
two_vals = codes "x" ∷ codes "y" ∷ []

abbrev five : List ℕ
five = 0 ∷ 10 ∷ 20 ∷ 30 ∷ 40 ∷ []

slice-runs : slice 6 five (pos 1) (negsuc 0) 2 ≡ some (10 ∷ 30 ∷ [])
unfolding slice slice_loop clamp end_or
slice-runs = refl

slice_total_example :
    (i j : ℕ) × (r : List ℕ) × (slice (suc (length five)) five (pos 1) (negsuc 0) 2 ≡ some r)
    × At five i j 2 r
    × (j ≤ length five)
    × ((k : ℕ)
        → (((i ≤ k) × (k < length five)) ↔ (FromStart (pos 1) (length five) k × (k < length five)))
          × ((k < j) ↔ BeforeEnd (negsuc 0) (length five) k))
slice_total_example = slice_total five (pos 1) (negsuc 0) 2 (omega arith)

abbrev nested : Items
nested = cons (num 1) (cons (arr (cons null (cons (text (codes "a")) nil))) (cons (bool false) nil))

compact-runs : compact nested ≡ num 1 ∷ text (codes "a") ∷ []
unfolding compact
compact-runs = refl

abbrev target : Fields
target = field (codes "a") (num 1) (field (codes "b") (num 2) end)

abbrev source : Fields
source = field (codes "b") (num 3) (field (codes "a") null end)

abbrev request : AjaxRequest
request = record bare {
  url = some (codes "/news");
  content = some (string (codes "q=a"));
  sync = some true;
}

abbrev thread : ℕ → Thread
thread i = record { ref = i; id = i; file = codes "w.js"; onerror = 0 }

abbrev object_ : Mutable
object_ = record { listeners = wrapped ∷ []; last_message = none }

abbrev page : State
page = record {
  options = record { count = 3; worker = codes "w.js"; receive = 7; created = 0; error = 0 };
  threads_by_id = (0, thread 0) ∷ (1, thread 1) ∷ (2, thread 2) ∷ [];
  threads = thread 0 ∷ thread 1 ∷ thread 2 ∷ [];
  fn_cache = [];
  last_thread_int = 2;
  objects = object_ ∷ record object_ { listeners = wrapped ∷ direct 9 ∷ [] } ∷ object_ ∷ [];
  log = [];
}

abbrev greeting : Message
greeting = record { message = codes "hi"; send_to = some 2; send_from = none; worker_id = none }

abbrev sender : Worker
sender = record { identity = some 1; posted = []; received = [] }

send-on_message-receive_all_example :
    (out arrived : Message) × (let copies =
        replicate (length (listeners_of (thread 1) page)) arrived in
      ((send (object greeting) sender).posted ≡ sender.posted ++ out ∷ [])
      × SameRegistry page (on_message (thread 1) out page)
      × ((on_message (thread 1) out page).log
          ≡ page.log
            ++ replicate (length (listeners_of (thread 1) page)) (posted (thread 2).ref arrived))
      × ((receive_all copies fresh_worker).received ≡ fresh_worker.received ++ copies)
      × ((receive_all copies fresh_worker).identity ≡ some (thread 2).id)
      × (arrived.message ≡ greeting.message)
      × (arrived.send_from ≡ some 1))
unfolding get lookup fresh_worker listeners_of
send-on_message-receive_all_example =
    send-on_message-receive_all (thread 1) (thread 2) page sender fresh_worker greeting 1 0 refl
      refl refl refl (omega arith)

listeners-two : length (listeners_of (thread 1) page) ≡ 2
unfolding listeners_of
listeners-two = refl

abbrev stamped : Message
stamped = record greeting { worker_id = some 2 }

trim_lem_example :
    (l r : Text) × (codes "  a b " ≡ l ++ (trim (some (codes "  a b ")) ++ r))
    × (all_space l ≡ true)
    × (all_space r ≡ true)
    × (begins_bare (trim (some (codes "  a b "))) ≡ true)
    × (ends_bare (trim (some (codes "  a b "))) ≡ true)
trim_lem_example = trim_lem (codes "  a b ")

trimmed : trim (some (codes "  a b ")) ≡ codes "a b"
unfolding trim trim_left trim_right all_space is_space
trimmed = refl
