-- ===== src/Comet/Requests.antt =====
-- AsyncHttpRequestHandlingMessageAdapter.java: requests, which subscribe or publish.
--
-- What Spring answers of media types and texts is the record `Spring`. Texts that are compared without case
-- are in ASCII.
use joshlong_examples.Common.{
  Bool, true, false, not, ◌&&◌, Option, none, some, List, [], ◌∷◌, leb, if◌then◌else◌, map, Text,
  codes, text_eq, ℕ, ◌+◌,
}
use joshlong_examples.Comet.Mapper.{Converter, Request, ReadMessage, read_message}

pub record Spring (M : Type 0) : Type 0 where
  pub is_all : M → Bool
  pub is_compatible : M → M → Bool
  pub is_wildcard : M → Bool  -- as its type or as its subtype
  pub is_text : M → Bool
  pub has_text : Text → Bool

-- The first supported type that fits an accepted one.
unfoldable pub fitting : {M : Type 0} → Spring M → M → List M → Option M
fitting sp accepted [] = none
fitting sp accepted (s ∷ ss) =
    let rest = fitting sp accepted ss in
    if not (sp.is_all s) && sp.is_compatible s accepted then some s else rest

-- The two inner loops of `subscribe`.
unfoldable pub fitting_any : {M : Type 0} → Spring M → List M → List M → Option M
unfolding fitting
fitting_any sp [] supported = none
fitting_any sp (a ∷ rest_types) supported =
    let rest = fitting_any sp rest_types supported in
    elim (fitting sp a supported) [ none ↦ rest | some s ↦ some s ]

-- The "default" type of a converter: its first, where that is concrete.
unfoldable pub default_type : {M : Type 0} → Spring M → List M → Option M
default_type sp [] = none
default_type sp (t ∷ ts) = if not (sp.is_wildcard t) then some t else none

-- The content type that is set for a supported type that fits.
unfoldable pub content_type_for : {M : Type 0} → Spring M → List M → M → Option M
unfolding default_type
content_type_for sp supported s =
    if not (sp.is_wildcard s) then some s else default_type sp supported

-- The content type that `subscribe` sets, if any.
unfoldable pub guess_content_type :
    {M C P : Type 0} → Spring M → List (Converter M C P) → List M → Option M
unfolding fitting_any content_type_for
guess_content_type sp [] accept = none
guess_content_type sp (c ∷ cs) accept =
    let rest = guess_content_type sp cs accept in
    elim (fitting_any sp accept c.supported_media_types) [
      | none ↦ rest
      | some s ↦ content_type_for sp c.supported_media_types s
    ]

-- `equalsIgnoreCase`
unfoldable pub lower : ℕ → ℕ
lower c = if leb 65 c && leb c 90 then c + 32 else c

unfoldable pub equals_ignore_case : Text → Text → Bool
unfolding lower
equals_ignore_case s t = text_eq (map lower s) (map lower t)

unfoldable pub is_long_polling : {M : Type 0} → Spring M → Request M → Bool
is_long_polling sp r = elim r.transport [
  | none ↦ false
  | some t ↦ sp.has_text t && text_eq t (codes "long-polling")
]

unfoldable pub is_upgrade : {M : Type 0} → Spring M → Request M → Bool
unfolding equals_ignore_case
is_upgrade sp r = elim r.connection [
  | none ↦ false
  | some u ↦ sp.has_text u && equals_ignore_case u (codes "Upgrade")
]

unfoldable pub is_flush_comments_required : {M : Type 0} → Spring M → Request M → Bool
unfolding is_upgrade is_long_polling
is_flush_comments_required sp r =
    if is_upgrade sp r then false else if is_long_polling sp r then false else true

-- What a request comes to: a resource that is suspended, with the content type that was set, whether
-- comments are flushed, and the attribute RESUME_ON_BROADCAST; a message that is sent to the channel;
-- nothing; or an exception.
pub data Outcome (M P : Type 0) : Type 0 where
  suspended : Option M → Bool → Option Bool → Outcome M P
  sent : ReadMessage P → Outcome M P
  ignored illegal_argument illegal_state : Outcome M P

unfoldable pub subscribe :
    {M C P : Type 0} → Spring M → List (Converter M C P) → Request M → Outcome M P
unfolding guess_content_type is_flush_comments_required is_long_polling
subscribe sp converters r =
    suspended (guess_content_type sp converters r.accept) (is_flush_comments_required sp r)
      (if is_long_polling sp r then some true else none)

unfoldable pub publish :
    {M C P : Type 0} → Spring M → List (Converter M C P) → Request M → Outcome M P
unfolding read_message
publish sp converters r = elim (read_message sp.is_text converters r) [
  | none ↦ illegal_state
  | some m ↦ sent m
]

-- `handleRequest`: the id of the resource's broadcaster afterwards, and the outcome. Without the
-- attribute for the resource, its id is `none`.
unfoldable pub handle_request :
    {M C P : Type 0}
    → Spring M
    → List (Converter M C P)
    → Text
    → Option Text
    → Request M
    → Option Text × Outcome M P
unfolding equals_ignore_case subscribe publish
handle_request sp converters name none r = (none, illegal_argument)
handle_request sp converters name (some id) r =
    let id' = if not (text_eq name id) then name else id in
    (
      some id',
      if equals_ignore_case r.method (codes "GET")
          then subscribe sp converters r
          else if equals_ignore_case r.method (codes "POST")
          then publish sp converters r
          else ignored,
    )
