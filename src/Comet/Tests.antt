-- ===== src/Comet/Tests.antt =====
-- The Comet support at concrete inputs, with numbers for media types: 0 is JSON, 1 plain text.
use joshlong_examples.Common.{
  ℕ, ◌≡◌, refl, arith, true, false, not, ◌==◌, none, some, List, [], ◌∷◌, map, keep, length, Text,
  codes, text_eq,
}
use joshlong_examples.Comet.Mapper.{
  Converter, written, write_accepted, write_with, accept_or, write_message, Request,
  from_parameters,
}
use joshlong_examples.Comet.Adapter.{
  Message, HttpBroadcastMessage, Adapter, Lookup, has_header, set_header_if_absent, wrap,
  ensure_broadcaster_setup, drain, enqueue, handle_message,
}
use joshlong_examples.Comet.Requests.{
  Spring, sent, lower, equals_ignore_case, is_long_polling, handle_request,
}
use joshlong_examples.Comet.Broadcaster.{broadcast_message, list, delivered, broadcast}
use joshlong_examples.Comet.Queue.{run, taken, taken-run}
use joshlong_examples.Comet.Batches.{IsBatched, run-IsBatched}
use joshlong_examples.Comet.Replies.{choices, can_write, result, write_message-keep}
use joshlong_examples.Comet.Delivery.{resource_of, broadcast-handle_message}
use joshlong_examples.Comet.Posts.{values_of, values_in, handle_request-post}

abbrev json_converter : Converter ℕ (List Text) Text
json_converter = record {
  supported_media_types = 0 ∷ [];
  can_read = λ c t. t == 0;
  read = λ c body. some body;
  can_write = λ ps t. t == 0;
  write = λ ps t. some (codes "json");
}

abbrev text_converter : Converter ℕ (List Text) Text
text_converter = record {
  supported_media_types = 1 ∷ [];
  can_read = λ c t. t == 1;
  read = λ c body. some body;
  can_write = λ ps t. t == 1;
  write = λ ps t. none;
}

abbrev converters : List (Converter ℕ (List Text) Text)
converters = json_converter ∷ text_converter ∷ []

abbrev spring : Spring ℕ
spring = record {
  is_all = λ t. false;
  is_compatible = λ s t. s == t;
  is_wildcard = λ t. false;
  is_text = λ t. t == 1;
  has_text = λ t. not (text_eq t []);
}

abbrev adapter : Adapter Text
adapter = record {
  component_name = codes "chat";
  message_threshold = 2;
  message_queue = some [];
  has_broadcaster = false;
  broadcasts = [];
}

abbrev hello : Message Text
hello = record { payload = codes "hello"; headers = [] }

abbrev there : Message Text
there = record { payload = codes "there"; headers = (codes "endpoint-path", codes "else") ∷ [] }

abbrev found : Lookup
found = record { finds = true; throws = false }

abbrev missing : Lookup
missing = record { finds = false; throws = false }

abbrev poll : Request ℕ
poll = record {
  method = codes "GET";
  connection = none;
  transport = some (codes "long-polling");
  accept = 1 ∷ 0 ∷ [];
  content_type = none;
  body = [];
  parameters = [];
  url = codes "/chat";
  principal = none;
}

abbrev form : Request ℕ
form = record poll {
  method = codes "POST";
  parameters = (codes "to", codes "ann" ∷ codes "bob" ∷ []) ∷ (codes "text", codes "hi" ∷ []) ∷ [];
}

abbrev calls : List (Lookup × Message Text)
calls = (missing, hello) ∷ (missing, there) ∷ (found, hello) ∷ (found, there) ∷ []

taken-run_example : taken (run calls adapter) ≡ map (λ c. wrap (codes "chat") c.1) calls
taken-run_example = taken-run calls adapter refl

abbrev good_calls : List (Lookup × Message Text)
good_calls = (found, hello) ∷ (found, there) ∷ (found, hello) ∷ []

run-IsBatched_example : IsBatched 2 (run good_calls adapter)
run-IsBatched_example =
    run-IsBatched good_calls adapter 2 (refl, (refl, (refl, tt))) (tt, omega arith, refl, refl)

-- One batch of two was handed over, and one message waits.
batched : map length (run good_calls adapter).broadcasts ≡ 2 ∷ []
unfolding handle_message wrap set_header_if_absent has_header enqueue drain ensure_broadcaster_setup
    text_eq
batched = refl

write_message-keep_example :
    write_message 0 converters (1 ∷ 0 ∷ []) (codes "hello" ∷ [])
    ≡ result
        (codes "hello" ∷ [])
        (keep (can_write (codes "hello" ∷ [])) (choices converters (accept_or 0 (1 ∷ 0 ∷ []))))
write_message-keep_example = write_message-keep 0 converters (1 ∷ 0 ∷ []) (codes "hello" ∷ [])

-- The first converter goes before the type that the request names first.
json_first : write_message 0 converters (1 ∷ 0 ∷ []) (codes "hello" ∷ []) ≡ written (codes "json")
unfolding write_message write_with write_accepted accept_or
json_first = refl

broadcast-handle_message_example :
    let resource =
      resource_of poll
        (handle_request spring converters (codes "chat") (some (codes "x")) poll).1 in
    let a = record adapter { message_queue = some (wrap (codes "chat") hello ∷ []) } in
    let a' = (handle_message found there a).1 in
    (batch : List (HttpBroadcastMessage Text)) × (a'.broadcasts ≡ batch ∷ [])
    × (a'.message_queue ≡ some [])
    × (broadcast 0 converters resource (list (map broadcast_message batch))
        ≡ delivered (codes "json") (is_long_polling spring poll))
unfolding write_message write_with write_accepted accept_or equals_ignore_case lower text_eq wrap
broadcast-handle_message_example =
    broadcast-handle_message spring converters 0 converters (codes "chat") (codes "x") poll found
      there (record adapter { message_queue = some (wrap (codes "chat") hello ∷ []) })
      (wrap (codes "chat") hello ∷ []) (codes "json") refl refl (omega arith) refl refl

handle_request-post_example :
    (pairs : List (Text × Text)) × ((handle_request spring converters
        (codes "chat")
        (some (codes "x"))
        form).1
      ≡ sent (record {
        payload = from_parameters pairs;
        request_url = codes "/chat";
        request_method = codes "POST";
        user_principal = none;
      }))
    × ((key : Text) → values_of key pairs ≡ values_in key form.parameters)
handle_request-post_example =
    handle_request-post spring converters (codes "chat") (codes "x") form refl refl
