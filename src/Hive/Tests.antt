-- ===== src/Hive/Tests.antt =====
-- jquery.hive.js at concrete inputs: two calls of `create` and what follows them.
use joshlong_examples.Common.{
  ℕ, ◌≡◌, ◌++◌, refl, none, some, List, [], ◌∷◌, lookup, insert, Text, codes, plain_jquery as jq,
}
use joshlong_examples.Hive.Defs.{
  CreateOptions, Thread, FnCache, Mutable, State, Message, wrapped, posted, started, created_with,
  ok, throw, no_worker_file, initial, create, requested, first_id, destroy, get, handle,
}
use joshlong_examples.Hive.Registry.{IsValid, find}
use joshlong_examples.Hive.Create.{fresh_threads, create-threads}
use joshlong_examples.Hive.Messages.{
  SameRegistry, Reach, loaded, next, creates, destroys, Reach-IsValid, get-destroy, handle-forwards,
}

abbrev file : Text
file = codes "w.js"

-- `create({count: 2, worker: "w.js", receive: 7})`
abbrev two_options : CreateOptions
two_options = record {
  count = some 2;
  worker = some file;
  receive = some 7;
  created = none;
  error = none;
}

-- `create({receive: 8})`
abbrev one_option : CreateOptions
one_option = record { count = none; worker = none; receive = some 8; created = none; error = none }

abbrev worker : ℕ → Thread
worker i = record { ref = i; id = i; file = file; onerror = 0 }

abbrev cached : FnCache
cached = record { active = wrapped ∷ []; inactive = [] }

abbrev object_ : Mutable
object_ = record { listeners = wrapped ∷ []; last_message = none }

abbrev two : State
two = record {
  options = record { count = 2; worker = file; receive = 7; created = 0; error = 0 };
  threads_by_id = (0, worker 0) ∷ (1, worker 1) ∷ [];
  threads = worker 0 ∷ worker 1 ∷ [];
  fn_cache = (0, cached) ∷ (1, cached) ∷ [];
  last_thread_int = 1;
  objects = object_ ∷ object_ ∷ [];
  log = started (worker 0) ∷ started (worker 1) ∷ created_with 0 (worker 0 ∷ worker 1 ∷ []) ∷ [];
}

create-two : create jq two_options initial ≡ ok (two.threads, two)
unfolding create initial insert requested
create-two = refl

abbrev all_three : List Thread
all_three = worker 0 ∷ worker 1 ∷ worker 2 ∷ []

abbrev three : State
three = record {
  options = record { count = 3; worker = file; receive = 8; created = 0; error = 0 };
  threads_by_id = (0, worker 0) ∷ (1, worker 1) ∷ (2, worker 2) ∷ [];
  threads = all_three;
  fn_cache = (0, cached) ∷ (1, cached) ∷ (2, cached) ∷ [];
  last_thread_int = 2;
  objects = object_ ∷ object_ ∷ object_ ∷ [];
  log = two.log ++ started (worker 2) ∷ created_with 0 all_three ∷ [];
}

create-three : create jq one_option two ≡ ok (all_three, three)
unfolding create insert requested
create-three = refl

no_file : create jq one_option initial ≡ throw no_worker_file
unfolding create initial
no_file = refl

two-Reach : Reach jq two
two-Reach = next loaded (creates two_options create-two)

three-Reach : Reach jq three
three-Reach = next two-Reach (creates one_option create-three)

two-IsValid : IsValid two
two-IsValid = Reach-IsValid jq two-Reach

create-threads_example :
    (three.threads ≡ all_three)
    × (all_three ≡ two.threads ++ fresh_threads (requested one_option) (first_id two) 2 file 0)
create-threads_example = create-threads jq one_option two create-three

Reach-IsValid_example : IsValid (destroy jq (some 1) three).1
Reach-IsValid_example = Reach-IsValid jq (next three-Reach (destroys (some 1)))

get-destroy_example :
    let (rest, s') = destroy jq (some 1) three in
    (rest ≡ s'.threads)
    × (find 1 s'.threads ≡ none)
    × (get 2 s' ≡ get 2 three)
    × (lookup 1 s'.fn_cache ≡ none)
get-destroy_example = get-destroy jq 0 2 three

-- Worker 2 writes to worker 1.
abbrev note : Message
note = record { message = codes "hi"; send_to = some 1; send_from = some 2; worker_id = some 2 }

handle-forwards_example :
    (s' : State) × (handle (worker 2) wrapped note three ≡ ok s')
    × SameRegistry three s'
    × (m : Message) × (s'.log ≡ three.log ++ posted 1 m ∷ [])
    × (m.message ≡ codes "hi")
    × (m.send_to ≡ some 1)
    × (m.send_from ≡ some 2)
    × (m.worker_id ≡ some 1)
unfolding get lookup
handle-forwards_example =
    handle-forwards (worker 2) (worker 1) wrapped note three 0 1 refl refl refl

-- Worker 0 writes to worker 1, and worker 1 writes to worker 0.
abbrev from_zero : Message
from_zero = record note { send_from = some 0; worker_id = some 0 }

abbrev to_zero : Message
to_zero = record note { send_to = some 0; send_from = some 1; worker_id = some 1 }
