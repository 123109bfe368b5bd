-- ===== src/Comet/Mapper.antt =====
-- HttpMessageMapper.java: messages read from requests and written to responses.
--
-- Media types, contents and bodies are types that the definitions take; a converter is the record of
-- what the source asks of it, and a read or write that throws is `none`. The headers that
-- `DefaultHttpHeaderMapper` copies are left out.
use joshlong_examples.Common.{
  Bool, not, ◌&&◌, ◌||◌, Option, none, some, List, [], ◌∷◌, ◌++◌, if◌then◌else◌, is_some, Text,
  codes, text_eq,
}

-- The two classes that a request body may be read as.
pub data BodyClass : Type 0 where
  string_class bytes_class : BodyClass

-- A converter over media types `M`, contents `C` that it writes, and payloads `P` that it reads.
pub record Converter (M C P : Type 0) : Type 0 where
  pub supported_media_types : List M
  pub can_read : BodyClass → M → Bool
  pub read : BodyClass → Text → Option P
  pub can_write : C → M → Bool
  pub write : C → M → Option Text

pub data Written : Type 0 where
  written : Text → Written
  conversion_failed no_converter : Written

-- The inner loop of `writeMessage`; `none` where it ends without a converter's write.
unfoldable pub write_accepted :
    {M C P : Type 0} → Converter M C P → List M → C → Option (Option Text)
write_accepted c [] content = none
write_accepted c (t ∷ ts) content =
    let rest = write_accepted c ts content in
    if c.can_write content t then some (c.write content t) else rest

-- The outer loop of `writeMessage`.
unfoldable pub write_with : {M C P : Type 0} → List (Converter M C P) → List M → C → Written
unfolding write_accepted
write_with [] accept content = no_converter
write_with (c ∷ cs) accept content =
    let rest = write_with cs accept content in
    elim (write_accepted c accept content) [
      | none ↦ rest
      | some none ↦ conversion_failed
      | some (some t) ↦ written t
    ]

-- The types that the request accepts, or JSON where it names none.
unfoldable pub accept_or : {M : Type 0} → M → List M → List M
accept_or json [] = json ∷ []
accept_or json (t ∷ ts) = t ∷ ts

-- `writeMessage` on the content.
unfoldable pub write_message : {M C P : Type 0} → M → List (Converter M C P) → List M → C → Written
unfolding write_with accept_or
write_message json converters accept content = write_with converters (accept_or json accept) content

-- A request, as far as it is read. A header that is missing is `none`.
pub record Request (M : Type 0) : Type 0 where
  pub method : Text
  pub connection : Option Text
  pub transport : Option Text  -- `X-Atmosphere-Transport`
  pub accept : List M
  pub content_type : Option M
  pub body : Text
  pub parameters : List (Text × List Text)
  pub url : Text
  pub principal : Option Text

unfoldable pub is_readable : {M : Type 0} → Request M → Bool
is_readable r =
    not (
      text_eq r.method (codes "GET")
      || (text_eq r.method (codes "HEAD") || text_eq r.method (codes "OPTIONS")))
    && is_some r.content_type

-- `convertedMap.add(key, value)`, in the order of the calls.
unfoldable pub convert_values : Text → List Text → List (Text × Text)
convert_values key [] = []
convert_values key (v ∷ vs) = (key, v) ∷ convert_values key vs

unfoldable pub convert_parameter_map : List (Text × List Text) → List (Text × Text)
unfolding convert_values
convert_parameter_map [] = []
convert_parameter_map ((key, values) ∷ ps) = convert_values key values ++ convert_parameter_map ps

-- The payload of a message that was read: from the body, or from the parameters.
pub data Payload (P : Type 0) : Type 0 where
  from_body : P → Payload P
  from_parameters : List (Text × Text) → Payload P

-- The class for a body whose expected class is null; `is_text` tells whether the type's first part
-- is `text`.
unfoldable pub expected_class : {M : Type 0} → (M → Bool) → M → BodyClass
expected_class is_text t = if is_text t then string_class else bytes_class

-- The loop of `generatePayloadFromRequestBody`; `none` is a MessagingException.
unfoldable pub read_body :
    {M C P : Type 0} → List (Converter M C P) → BodyClass → M → Text → Option P
read_body [] cls t body = none
read_body (c ∷ cs) cls t body =
    let rest = read_body cs cls t body in if c.can_read cls t then c.read cls body else rest

unfoldable pub generate_payload :
    {M C P : Type 0} → (M → Bool) → List (Converter M C P) → Request M → Option (Payload P)
unfolding expected_class read_body
generate_payload is_text converters r = elim r.content_type [
  | none ↦ none
  | some t ↦ elim (read_body converters (expected_class is_text t) t r.body) [
    | none ↦ none
    | some p ↦ some (from_body p)
  ]
]

pub record ReadMessage (P : Type 0) : Type 0 where
  pub payload : Payload P
  pub request_url : Text
  pub request_method : Text
  pub user_principal : Option Text

-- `readMessage`
unfoldable pub read_message :
    {M C P : Type 0} → (M → Bool) → List (Converter M C P) → Request M → Option (ReadMessage P)
unfolding is_readable generate_payload convert_parameter_map
read_message is_text converters r =
    let payload =
      if is_readable r
      then generate_payload is_text converters r
      else some (from_parameters (convert_parameter_map r.parameters)) in
    elim payload [
      | none ↦ none
      | some p ↦ some (record {
        payload = p;
        request_url = r.url;
        request_method = r.method;
        user_principal = r.principal;
      })
    ]
