-- ===== src/Comet/Posts.antt =====
-- What a form that is posted becomes.
use joshlong_examples.Common.{
  ◌≡◌, refl, ap, ◌∙◌, arith, Bool, true, false, Option, none, some, List, [], ◌∷◌, ◌++◌,
  if◌then◌else◌, Text, codes, text_eq, is_some, not, ◌||◌, ◌&&◌,
}
use joshlong_examples.Comet.Mapper.{
  Converter, Request, Payload, from_parameters, ReadMessage, is_readable, generate_payload,
  read_message, convert_values, convert_parameter_map,
}
use joshlong_examples.Comet.Requests.{
  Spring, Outcome, sent, lower, equals_ignore_case, subscribe, publish, handle_request, ignored,
  illegal_state,
}

-- The values under a key of a form, and of the payload that it is converted to.
abbrev pub values_in : Text → List (Text × List Text) → List Text
values_in key [] = []
values_in key ((k, vs) ∷ ps) = if text_eq k key then vs ++ values_in key ps else values_in key ps

abbrev pub values_of : Text → List (Text × Text) → List Text
values_of key [] = []
values_of key ((k, v) ∷ ps) = if text_eq k key then v ∷ values_of key ps else values_of key ps

values_of-convert_values :
    (key k : Text) (vs : List Text) (ps : List (Text × Text))
    → values_of key (convert_values k vs ++ ps)
      ≡ (if text_eq k key then vs ++ values_of key ps else values_of key ps)
unfolding convert_values
values_of-convert_values key k [] ps = ground arith
values_of-convert_values key k (v ∷ vs) ps =
    let rest = values_of-convert_values key k vs ps in ground arith

values_of-convert_parameter_map :
    (key : Text) (ps : List (Text × List Text))
    → values_of key (convert_parameter_map ps) ≡ values_in key ps
unfolding convert_parameter_map
values_of-convert_parameter_map key [] = refl
values_of-convert_parameter_map key ((k, vs) ∷ ps) =
    values_of-convert_values key k vs (convert_parameter_map ps)
    ∙ ap (λ xs. if text_eq k key then vs ++ xs else xs) (values_of-convert_parameter_map key ps)

is_readable-none : {M : Type 0} (r : Request M) → r.content_type ≡ none → is_readable r ≡ false
unfolding is_readable
is_readable-none r bare =
    let has_body = not (
      text_eq r.method (codes "GET")
      || (text_eq r.method (codes "HEAD") || text_eq r.method (codes "OPTIONS"))) in
    ap (λ o. has_body && is_some o) bare ∙ either has_body
  where
    either : (b : Bool) → (b && false) ≡ false
    either true = refl
    either false = refl

publish-none :
    {M C P : Type 0} (sp : Spring M) (converters : List (Converter M C P)) (r : Request M)
    → r.content_type ≡ none
    → publish sp converters r
      ≡ sent (record {
        payload = from_parameters (convert_parameter_map r.parameters);
        request_url = r.url;
        request_method = r.method;
        user_principal = r.principal;
      })
unfolding publish read_message
publish-none {M} {C} {P} sp converters r bare =
    ap {B = Outcome M P} outcome (is_readable-none r bare)
  where
    outcome : Bool → Outcome M P
    outcome b =
        let payload : Option (Payload P) =
          if b
          then generate_payload sp.is_text converters r
          else some (from_parameters (convert_parameter_map r.parameters)) in
        let message : Option (ReadMessage P) = elim payload [
          | none ↦ none
          | some p ↦ some (record {
            payload = p;
            request_url = r.url;
            request_method = r.method;
            user_principal = r.principal;
          })
        ] in
        elim message [ none ↦ illegal_state | some m ↦ sent m ]

-- A POST without a content type, to a resource that Atmosphere knows, is never refused: one message is
-- sent to the channel, with the request's url and method, and under each key its payload has the values
-- of the request's parameter, all of them and in order; the body is not read.
pub handle_request-post :
    {M C P : Type 0} (sp : Spring M) (converters : List (Converter M C P)) (name id : Text)
    (r : Request M)
    → r.method ≡ codes "POST"
    → r.content_type ≡ none
    → (pairs : List (Text × Text)) × ((handle_request sp converters name (some id) r).1
        ≡ sent (record {
          payload = from_parameters pairs;
          request_url = r.url;
          request_method = codes "POST";
          user_principal = r.principal;
        }))
      × ((key : Text) → values_of key pairs ≡ values_in key r.parameters)
unfolding handle_request publish read_message is_readable equals_ignore_case lower text_eq
handle_request-post sp converters name id r post bare = (
  convert_parameter_map r.parameters,
  ap
        (λ t.
          if equals_ignore_case t (codes "GET")
          then subscribe sp converters r
          else if equals_ignore_case t (codes "POST")
          then publish sp converters r
          else ignored)
        post
      ∙ publish-none sp converters r bare
      ∙ ap
          (λ t. sent (record {
            payload = from_parameters (convert_parameter_map r.parameters);
            request_url = r.url;
            request_method = t;
            user_principal = r.principal;
          }))
          post,
  λ key. values_of-convert_parameter_map key r.parameters,
)
