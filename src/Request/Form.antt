-- ===== src/Request/Form.antt =====
-- src/request.rs: queries, forms and authorization. What serde makes of a value is an input, and the
-- serializer of the crate form_urlencoded is a parameter: what appending a pair makes of its text.
use wrest.Body.{bytes}
use wrest.Encoding.Utf8RoundTrip.{encode_utf8}
use wrest.Error.{Error, ErrorKind, context, foreign, message, with_kind}
use wrest.Prelude.Result.{Result, ok, err, ◌>>=◌, ok_or}
use wrest.Prelude.Text.{Text, codes, is_empty}
use wrest.Prelude.{
  ℕ, Bool, false, List, [], ◌∷◌, ◌++◌, Option, none, some, if◌then◌else◌, ◌≡◌, refl,
}
use wrest.Request.{RequestBuilder}
use wrest.Url.Edit.{set_query, rebuild_serialized}
use wrest.Url.Types.{Url}

mutual
  -- `serde_json::Value`; a number is its text.
  pub data Value : Type 0 where
    null : Value
    bool : Bool → Value
    number string : Text → Value
    array : Values → Value
    object : Members → Value

  pub data Values : Type 0 where
    end_values : Values
    value_then : Value → Values → Values

  pub data Members : Type 0 where
    end_members : Members
    member_then : Text → Value → Members → Members

abbrev pub form_error : Text → Error
form_error s = with_kind ErrorKind.builder (message s)

abbrev pub serialization_error : Text → Error
serialization_error s = with_kind ErrorKind.builder (context s foreign)

-- The items of an array of two.
abbrev pub as_pair : Value → Option (Value × Value)
as_pair (array (value_then k (value_then v end_values))) = some (k, v)
as_pair _ = none

-- `to_string` of an array or object.
module _ (to_json : Value → Text) where
  unfoldable pub json_value_to_str : Value → Option Text
  json_value_to_str (string s) = some s
  json_value_to_str (number n) = some n
  json_value_to_str (bool b) = some (if b then codes "true" else codes "false")
  json_value_to_str null = none
  json_value_to_str (array vs) = some (to_json (array vs))
  json_value_to_str (object ms) = some (to_json (object ms))

  -- `unwrap_or_default`
  abbrev pub text_or_default : Option Text → Text
  text_or_default none = []
  text_or_default (some s) = s

  -- The key and value of an item of a sequence.
  unfoldable pub pair_of : Value → Result Error (Text × Text)
  unfolding json_value_to_str
  pair_of item = do
    pair ←
        ok_or (as_pair item) (
          form_error (codes "form serialization failed: sequence items must be [key, value] pairs"))
    k ← ok_or (json_value_to_str pair.0) (form_error (codes "form serialization failed: null key"))
    ok (k, text_or_default (json_value_to_str pair.1))

  module _ (append_pair : Text → Text → Text → Text) where
    -- The loop over an object.
    unfoldable pub append_members : Text → Members → Text
    unfolding json_value_to_str
    append_members target end_members = target
    append_members target (member_then k v ms) =
        append_members
          (elim (json_value_to_str v) [ some s ↦ append_pair target k s | none ↦ target ]) ms

    -- The loop over a sequence.
    unfoldable pub append_values : Text → Values → Result Error Text
    unfolding pair_of
    append_values target end_values = ok target
    append_values target (value_then item vs) = do
      pair ← pair_of item
      append_values (append_pair target pair.0 pair.1) vs

    unfoldable pub serialize_form_urlencoded : Option Value → Result Error Text
    unfolding append_members append_values
    serialize_form_urlencoded none = err (serialization_error (codes "form serialization failed"))
    serialize_form_urlencoded (some json) = elim json [
      | object ms ↦ ok (append_members [] ms)
      | array vs ↦ append_values [] vs
      | other ↦ err (
          form_error
            (codes "form serialization failed: value must be a struct, map, or sequence of pairs"))
    ]

-- The query that a URL gets from some serialized text.
unfoldable pub add_query : Url → Text → Url
add_query url query_str =
    if is_empty query_str
    then elim url.query [
      | none ↦ url
      | some existing ↦ if is_empty existing then set_query url none else url
    ]
    else elim url.query [
      | none ↦ set_query url (some query_str)
      | some existing ↦
          if is_empty existing
          then set_query url (some query_str)
          else set_query url (some (existing ++ (codes "&" ++ query_str)))
    ]

module _ {H : Type 0} where
  -- `RequestBuilder::query` and `RequestBuilder::form`, at what `serialize_form_urlencoded` gives.
  unfoldable pub query : RequestBuilder H → Result Error Text → RequestBuilder H
  unfolding add_query
  query b (err e) = record b { url = err e }
  query b (ok query_str) = elim b.url [
    | err _ ↦ b
    | ok url ↦ record b { url = ok (add_query url query_str) }
  ]

  unfoldable pub form : RequestBuilder H → Result Error Text → RequestBuilder H
  form b (err e) = record b { url = err e }
  form b (ok encoded) = record b {
    headers = b.headers ++ ((codes "Content-Type", codes "application/x-www-form-urlencoded") ∷ []);
    body = some (record { inner = bytes (encode_utf8 encoded) });
  }

  -- `RequestBuilder::json`, at the octets of the serialized value.
  unfoldable pub json : RequestBuilder H → Option (List ℕ) → RequestBuilder H
  json b none = record b { url = err (serialization_error (codes "JSON serialization failed")) }
  json b (some found) = record b {
    headers = b.headers ++ ((codes "Content-Type", codes "application/json") ∷ []);
    body = some (record { inner = bytes found });
  }

-- A query is added after the one that the URL has.
add_query-query :
    (url : Url) (query_str existing : Text)
    → url.query ≡ some existing
    → is_empty existing ≡ false
    → is_empty query_str ≡ false
    → (add_query url query_str).query ≡ some (existing ++ (codes "&" ++ query_str))
unfolding add_query set_query rebuild_serialized
add_query-query url query_str existing has some_before some_new =
    rw some_new (rw (has) (rw some_before refl))
