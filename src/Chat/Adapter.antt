-- ===== src/Chat/Adapter.antt =====
-- AsyncHttpRequestHandlingMessageAdapter.java of the dwr application, and the messages that it gets.
--
-- What DWR and Spring answer is the record `Dwr`. A Java reference that may be null is an option.
use joshlong_examples.Common.{
  ◌≡◌, Bool, true, false, Option, none, some, List, [], ◌∷◌, map, if◌then◌else◌, Text,
}

pub record ScriptSession : Type 0 where
  pub id : Text
  pub is_invalidated : Bool

-- The answers of the libraries during one call. `refuses` tells on which collections
-- `Util.addFunctionCall` throws: on none without a null, and on one null alone.
pub record Dwr : Type 0 where
  pub has_context : Bool  -- whether `ServerContextFactory.get` finds a context
  pub all_sessions : List ScriptSession
  pub by_id : Option Text → Option ScriptSession  -- `getScriptSessionById`
  pub has_text : Text → Bool  -- `StringUtils.hasText` of what is not null
  pub refuses : List (Option ScriptSession) → Bool
  pub refuses_sessions : (ss : List ScriptSession) → refuses (map some ss) ≡ false
  pub refuses_null : refuses (none ∷ []) ≡ true

-- A message with its payload and the two headers that the adapter reads. `setHeader` with null
-- leaves the header out.
pub record Message : Type 0 where
  pub payload : Text
  pub function_name : Option Text
  pub target : Option Text

-- `Util.addFunctionCall` for a collection of sessions, of which one may be null.
pub record Call : Type 0 where
  pub function : Text
  pub param : Text
  pub sessions : List (Option ScriptSession)

unfoldable pub callback_function : Dwr → Text → Option Text → Text
callback_function dwr default_name none = default_name
callback_function dwr default_name (some name) = if dwr.has_text name then name else default_name

unfoldable pub target_sessions : Dwr → Option Text → List (Option ScriptSession)
target_sessions dwr none = map some dwr.all_sessions
target_sessions dwr (some target) =
    if dwr.has_text target then dwr.by_id (some target) ∷ [] else map some dwr.all_sessions

-- `util.addFunctionCall(function, param)`; `none` is an exception.
unfoldable pub add_function_call : Dwr → Call → Option (List Call)
add_function_call dwr c = if dwr.refuses c.sessions then none else some (c ∷ [])

-- `handleMessage` of an adapter with a default callback, where the payload is extracted.
unfoldable pub handle_message : Dwr → Text → Message → Option (List Call)
unfolding add_function_call
handle_message dwr default_name message =
    if dwr.has_context
    then add_function_call dwr (record {
      function = callback_function dwr default_name message.function_name;
      param = message.payload;
      sessions = target_sessions dwr message.target;
    })
    else some []
