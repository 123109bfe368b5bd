-- ===== src/Pollen/Requests.antt =====
-- What a worker's requests send, and what a request leaves for the next.
use joshlong_examples.Common.{
  ℕ, ◌≡◌, refl, ap, ◌∙◌, Bool, true, false, Option, none, some, ◌++◌, if◌then◌else◌, truthy,
  nonempty, Text, codes, text_eq, contains, text_eq_iff,
}
use joshlong_examples.Pollen.Values.{
  Value, undefined, bool, Fields, is_true, is_undefined, property, assign,
}
use joshlong_examples.Pollen.Compacted.{property-assign}
use joshlong_examples.Pollen.Ajax.{
  Content, string, AjaxOptions, AjaxRequest, extend_ajax, content_text, is_type, lower, prepared,
  ajax, ajax_get, ajax_post, storage,
}

-- A url with a query behind it.
abbrev pub add_query : Text → Text → Text
add_query url q =
    if nonempty q
    then url ++ ((if contains (codes "?") url then codes "&" else codes "?") ++ q)
    else url

-- A request that names its url, its data and sync sends the url and the text of those data, which is
-- empty for a text of digits, whatever requests there were before: a GET with the text behind the url
-- and no body, a POST with the text for a body and the url as it is; the worker's id is sent along if it is not 0.
pub ajax_named :
    (is_nan : Text → Bool) (encode : Text → Text) (identity : Option ℕ) (d : AjaxOptions)
    (r : AjaxRequest) (url : Text) (content : Content) (sync : Bool)
    → r.url ≡ some url
    → r.content ≡ some content
    → r.sync ≡ some sync
    → let q = content_text is_nan encode content in
      let id : Option ℕ = if truthy identity then identity else none in
      ((ajax_get is_nan encode identity d r).1 ≡ record {
        type = codes "GET";
        url = add_query url q;
        sync = sync;
        thread_header = id;
        form_header = false;
        body = none;
      })
      × ((ajax_post is_nan encode identity d r).1 ≡ record {
        type = codes "POST";
        url = url;
        sync = sync;
        thread_header = id;
        form_header = true;
        body = some q;
      })
unfolding ajax_get ajax_post ajax prepared extend_ajax is_type lower text_eq
ajax_named is_nan encode identity d r url content sync u c s = rw (u, c, s) (refl, refl)

abbrev pub bare : AjaxRequest
bare = record {
  url = none;
  content = none;
  data_type = none;
  success = none;
  type = none;
  sync = none;
}

-- A GET that names nothing, after another GET, goes to the url of that one with its query, and has the
-- same data behind it once more: the options are shared by all requests.
pub ajax_get_again :
    (is_nan : Text → Bool) (encode : Text → Text) (identity : Option ℕ) (d : AjaxOptions)
    (r : AjaxRequest) (url q : Text)
    → r.url ≡ some url
    → r.content ≡ some (string q)
    → is_nan q ≡ true
    → let (d', first) = ajax_get is_nan encode identity d r in
      (first.url ≡ add_query url q)
      × ((ajax_get is_nan encode identity d' bare).1.url ≡ add_query (add_query url q) q)
unfolding ajax_get ajax prepared extend_ajax is_type lower text_eq content_text
ajax_get_again is_nan encode identity d r url q u c t = rw (u, c, t) (refl, rw t refl)

-- What is stored under a key is read back, by a later call without a value, if it is true as a
-- condition, and as false if it is not.
storage-storage :
    (key : Text) (value : Value) (cache : Fields)
    → nonempty key ≡ true
    → is_undefined value ≡ false
    → let (stored, given) = storage key value cache in
      (given ≡ value)
      × (storage key undefined stored ≡ (stored, (if is_true value then value else bool false)))
unfolding storage is_undefined
storage-storage key value cache k v =
    let same : text_eq key key ≡ true = (text_eq_iff key key).1 refl in
    let found : property key (assign key value cache) ≡ value =
      property-assign key key value cache ∙ rw same refl in
    rw (k, v)
      (
        found,
        ap (λ (x : Value). (assign key value cache, (if is_true x then x else bool false))) found,
      )
