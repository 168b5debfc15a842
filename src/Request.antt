-- ===== src/Request.antt =====
-- src/request.rs: `Request` and `RequestBuilder`; of src/util.rs the two Latin-1 conversions. Base64 and
-- the parsing of a method are parameters. A builder keeps the default headers of its client.
pub mod Auth
pub mod Clone
pub mod Form
pub mod Merge
use mathlib.Core.Option
use wrest.Body.{Body}
use wrest.Body
use wrest.Error.{Error, ErrorKind, Source, foreign, with_kind}
use wrest.Http.{HeaderMapLib, contains_key}
use wrest.Prelude.Result.{Result, ok, err, ◌>>=◌, ok_or}
use wrest.Prelude.Text.{Text, codes, text_eq, to_ascii_lowercase}
use wrest.Prelude.{
  ℕ, Bool, true, false, ◌%◌, ◌++◌, not, List, [], ◌∷◌, Option, none, some, if◌then◌else◌, any,
  filter, map, ltb,
}
use wrest.Url.Edit.{take_decoded_userinfo}
use wrest.Url.Types.{Url}

-- `widen_latin1`: each byte is the character of the same number.
unfoldable pub widen_latin1 : List ℕ → Text
widen_latin1 bytes = bytes

-- `narrow_latin1`
unfoldable pub narrow_latin1 : Text → List ℕ
narrow_latin1 s = map (λ ch. ch % 256) s

pub record Request (HeaderMap : Type 0) : Type 0 where
  pub method : Text
  pub url : Url
  pub headers : HeaderMap
  pub body : Option Body
  pub timeout : Option ℕ

pub record RequestBuilder (HeaderMap : Type 0) : Type 0 where
  pub default_headers : HeaderMap
  pub method : Text
  pub url : Result Error Url
  pub headers : List (Text × Text)
  pub body : Option Body
  pub timeout : Option ℕ

abbrev pub http_error : Error
http_error = with_kind ErrorKind.builder foreign

-- Whether a per-request header has the name, in lower case.
unfoldable pub is_per_request : List (Text × Text) → Text → Bool
is_per_request hs name = any (λ (e : Text × Text). text_eq name (to_ascii_lowercase e.0)) hs

module _ (http : HeaderMapLib) where
  open http use {HeaderMap}

  -- A body to clone: none is cloned as none, a stream not at all.
  unfoldable pub clone_body : Option Body → Option (Option Body)
  clone_body none = some none
  clone_body (some b) = elim (Body.try_clone b) [ none ↦ none | some c ↦ some (some c) ]

  -- `Request::try_clone` and `RequestBuilder::try_clone`
  unfoldable pub try_clone_request : Request HeaderMap → Option (Request HeaderMap)
  unfolding clone_body
  try_clone_request r =
      Option.map (λ (body : Option Body). record r { body = body }) (clone_body r.body)

  unfoldable pub try_clone : RequestBuilder HeaderMap → Option (RequestBuilder HeaderMap)
  unfolding clone_body
  try_clone b = elim b.url [
    | err _ ↦ none
    | ok url ↦
        Option.map (λ (body : Option Body). record b { url = ok url; body = body })
          (clone_body b.body)
  ]

  -- `RequestBuilder::from_parts`, at the default headers of the client.
  unfoldable pub from_parts : HeaderMap → Request HeaderMap → RequestBuilder HeaderMap
  unfolding widen_latin1
  from_parts default_headers r = record {
    default_headers = default_headers;
    method = r.method;
    url = ok r.url;
    headers = map (λ (e : Text × List ℕ). (e.0, widen_latin1 e.1)) (http.iter r.headers);
    body = r.body;
    timeout = r.timeout;
  }

  -- `RequestBuilder::header`, after the conversions of its arguments.
  unfoldable pub header :
      RequestBuilder HeaderMap → Option Text → Option (List ℕ) → RequestBuilder HeaderMap
  unfolding widen_latin1
  header b none value = record b { url = err http_error }
  header b (some name) none = record b { url = err http_error }
  header b (some name) (some value) = record b {
    headers = b.headers ++ ((name, widen_latin1 value) ∷ []);
  }

  -- `RequestBuilder::headers`
  unfoldable pub headers : RequestBuilder HeaderMap → HeaderMap → RequestBuilder HeaderMap
  unfolding widen_latin1
  headers b more = record b {
    headers = b.headers ++ map (λ (e : Text × List ℕ). (e.0, widen_latin1 e.1)) (http.iter more);
  }

  unfoldable pub append_all : HeaderMap → List (Text × List ℕ) → HeaderMap
  append_all h [] = h
  append_all h ((name, value) ∷ es) = append_all (http.append h name value) es

  -- The loop over the default headers.
  unfoldable pub add_defaults : HeaderMap → List (Text × Text) → HeaderMap
  unfolding append_all
  add_defaults defaults hs =
      append_all http.empty
        (filter (λ (e : Text × List ℕ). not (is_per_request hs e.0)) (http.iter defaults))

  -- The loop over the per-request headers.
  unfoldable pub add_per_request : HeaderMap → List (Text × Text) → Result Error HeaderMap
  unfolding narrow_latin1
  add_per_request h [] = ok h
  add_per_request h ((name, value) ∷ hs) = do
    header_name ← ok_or (http.name_from_bytes name) http_error
    header_value ← ok_or (http.value_from_bytes (narrow_latin1 value)) http_error
    add_per_request (http.append h header_name header_value) hs

  unfoldable pub add_accept : HeaderMap → HeaderMap
  add_accept h =
      if contains_key http h (codes "accept")
      then h
      else http.insert h (codes "accept") (codes "*/*")

  module _ (encode_base64 : List ℕ → Text) where
    unfoldable pub basic_credentials : List ℕ → Option (List ℕ) → Text
    basic_credentials username none = codes "Basic " ++ encode_base64 (username ++ codes ":")
    basic_credentials username (some password) =
        codes "Basic " ++ encode_base64 ((username ++ codes ":") ++ password)

    unfoldable pub add_userinfo : HeaderMap → Option (List ℕ × Option (List ℕ)) → HeaderMap
    unfolding basic_credentials
    add_userinfo h none = h
    add_userinfo h (some (username, password)) =
        if contains_key http h (codes "authorization")
        then h
        else elim (http.value_from_bytes (basic_credentials username password)) [
          | none ↦ h
          | some value ↦ http.insert h (codes "authorization") value
        ]

    -- `RequestBuilder::build`
    unfoldable pub build :
        (Text → List ℕ)
        → (Text → Option Text)
        → RequestBuilder HeaderMap
        → Result Error (Request HeaderMap)
    unfolding add_defaults add_per_request add_accept add_userinfo
    build percent_decode_str method_from_bytes b = do
      url ← b.url
      merged ← add_per_request (add_defaults b.default_headers b.headers) b.headers
      let taken = take_decoded_userinfo percent_decode_str url
      method ← ok_or (method_from_bytes b.method) http_error
      ok (record {
        method = method;
        url = taken.0;
        headers = add_userinfo (add_accept merged) taken.1;
        body = b.body;
        timeout = b.timeout;
      })
