-- ===== src/Pollen/Ajax.antt =====
-- jquery.hive.pollen.js, `ajax` and `data`: requests of a worker, their parameters, and `storage`.
use joshlong_examples.Common.{
  ℕ, ◌+◌, Bool, false, ◌&&◌, Option, none, some, List, [], ◌∷◌, ◌++◌, ◌==◌, leb, if◌then◌else◌,
  get_or, truthy, nonempty, Text, codes, text_eq, contains,
}
use joshlong_examples.Pollen.Values.{Value, bool, Fields, is_true, is_undefined, property, assign}
use joshlong_examples.Pollen.Strings.{replace_spaces}

-- `encodeURIComponent(key) + "=" + encodeURIComponent(value)` of each pair, joined by `&`.
unfoldable pub join_pairs : (Text → Text) → List (Text × Text) → Text
join_pairs encode [] = []
join_pairs encode ((k, v) ∷ []) = encode k ++ (codes "=" ++ encode v)
join_pairs encode ((k, v) ∷ p ∷ ps) =
    encode k ++ (codes "=" ++ (encode v ++ (codes "&" ++ join_pairs encode (p ∷ ps))))

-- `param(arg)` of an object whose values are texts; with the flag, `worker_id` is the identity.
unfoldable pub param : (Text → Text) → List (Text × Text) → Option Text → Text
param encode pairs worker_id =
    let identity : List (Text × Text) = elim worker_id [
      | none ↦ []
      | some id ↦ (codes "WORKER_ID", id) ∷ []
    ] in
    replace_spaces 0 (join_pairs encode (pairs ++ identity))

-- The option `data`: a text, or an object of texts.
pub data Content : Type 0 where
  string : Text → Content
  pairs : List (Text × Text) → Content

-- `_options`, which all requests share. Its data are a text at first and after every request, so
-- `extend` never finds an object there to merge with.
pub record AjaxOptions : Type 0 where
  pub url : Text
  pub content : Content
  pub data_type : Text
  pub success : Option ℕ
  pub type : Text
  pub sync : Bool

-- A request; each property may be missing.
pub record AjaxRequest : Type 0 where
  pub url : Option Text
  pub content : Option Content
  pub data_type : Option Text
  pub success : Option ℕ
  pub type : Option Text
  pub sync : Option Bool

-- The options at first; `sync` by the browser. `Pollen.noop` is undefined there.
unfoldable pub first_options : Bool → AjaxOptions
first_options sync = record {
  url = [];
  content = string [];
  data_type = [];
  success = none;
  type = codes "GET";
  sync = sync;
}

-- `Pollen.object.extend(this._options, request)`, which writes into `_options`.
unfoldable pub extend_ajax : AjaxOptions → AjaxRequest → AjaxOptions
extend_ajax d r = record {
  url = get_or r.url d.url;
  content = get_or r.content d.content;
  data_type = get_or r.data_type d.data_type;
  success = elim r.success [ none ↦ d.success | some f ↦ some f ];
  type = get_or r.type d.type;
  sync = get_or r.sync d.sync;
}

unfoldable pub lower : Text → Text
lower [] = []
lower (c ∷ cs) = (if leb b'A' c && leb c b'Z' then c + 32 else c) ∷ lower cs

-- The text of `options.data`. `isStr` takes a text only if it is no number; any other text goes to
-- `param`, which finds no property in it.
unfoldable pub content_text : (Text → Bool) → (Text → Text) → Content → Text
content_text is_nan encode (string t) = if is_nan t then t else []
content_text is_nan encode (pairs ps) = param encode ps none

-- What the browser sends.
pub record Sending : Type 0 where
  pub type : Text
  pub url : Text
  pub sync : Bool
  pub thread_header : Option ℕ
  pub form_header : Bool
  pub body : Option Text

unfoldable pub is_type : Text → Text → Bool
is_type type name = text_eq (lower type) name

-- The options as `_ajax` leaves them.
unfoldable pub prepared : (Text → Bool) → (Text → Text) → AjaxOptions → AjaxRequest → AjaxOptions
prepared is_nan encode d r =
    let o = extend_ajax d r in
    let q = content_text is_nan encode o.content in
    record o {
      content = string q;
      url =
          if is_type o.type (codes "get") && nonempty q
          then o.url ++ ((if contains (codes "?") o.url then codes "&" else codes "?") ++ q)
          else o.url;
    }

-- `_ajax`: the options after it, and what is sent.
unfoldable pub ajax :
    (Text → Bool) → (Text → Text) → Option ℕ → AjaxOptions → AjaxRequest → AjaxOptions × Sending
ajax is_nan encode identity d r =
    let o = prepared is_nan encode d r in
    let q = content_text is_nan encode (extend_ajax d r).content in
    let posts = is_type o.type (codes "post") in
    (
      o,
      record {
        type = o.type;
        url = o.url;
        sync = o.sync;
        thread_header = if truthy identity then identity else none;
        form_header = posts;
        body = if posts then some q else none;
      },
    )

-- `ajax.get` and `ajax.post`
unfoldable pub ajax_get :
    (Text → Bool) → (Text → Text) → Option ℕ → AjaxOptions → AjaxRequest → AjaxOptions × Sending
ajax_get is_nan encode identity d r =
    ajax is_nan encode identity d (record r { type = some (codes "GET") })

unfoldable pub ajax_post :
    (Text → Bool) → (Text → Text) → Option ℕ → AjaxOptions → AjaxRequest → AjaxOptions × Sending
ajax_post is_nan encode identity d r =
    ajax is_nan encode identity d (record r { type = some (codes "POST") })

-- A response, with what `JSON.parse` makes of its text where that is JSON.
pub record Answer : Type 0 where
  pub text : Text
  pub json : Option Value

-- What the success callback is given: the parsed text, or the text with it (and
-- `responseXML`, which is left out).
pub data Given : Type 0 where
  parsed : Option Value → Given
  whole : Answer → Given

-- `onreadystatechange` of `_confXHR`: the call of the success callback, if there is one.
unfoldable pub conf_xhr : AjaxOptions → ℕ → Answer → List (ℕ × Given)
conf_xhr o ready_state a =
    if ready_state == 4
    then (let json = text_eq o.data_type (codes "json") in
        elim o.success [ none ↦ [] | some f ↦ (f, if json then parsed a.json else whole a) ∷ [] ])
    else []

-- `storage(key, value)`: the cache afterwards, and what is returned.
unfoldable pub storage : Text → Value → Fields → Fields × Value
storage key value cache =
    if nonempty key && is_undefined value
    then (cache, if is_true (property key cache) then property key cache else bool false)
    else (assign key value cache, property key (assign key value cache))
