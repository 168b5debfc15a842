-- ===== src/Request/Auth.antt =====
-- src/request.rs: requests and builders from their parts, authorization, and the conversions from and to
-- the requests of the crate http, whose body, URI and method are inputs.
use wrest.Body.{Body}
use wrest.Encoding.Utf8RoundTrip.{encode_utf8}
use wrest.Error.{Error}
use wrest.Http.{HeaderMapLib}
use wrest.Prelude.Result.{Result, ok, ◌>>=◌}
use wrest.Prelude.Text.{Text, codes}
use wrest.Prelude.{ℕ, List, [], ◌++◌, Option, none, some}
use wrest.Request.{Request, RequestBuilder, header}
use wrest.Url.Types.{Url}

module _ {H : Type 0} where
  -- `Request::new`, at the empty header map.
  unfoldable pub new_request : H → Text → Url → Request H
  new_request empty method url = record {
    method = method;
    url = url;
    headers = empty;
    body = none;
    timeout = none;
  }

  -- `RequestBuilder::new`, at the default headers of the client and what `into_url` gives.
  unfoldable pub new_builder : H → Text → Result Error Url → RequestBuilder H
  new_builder default_headers method url = record {
    default_headers = default_headers;
    method = method;
    url = url;
    headers = [];
    body = none;
    timeout = none;
  }

  unfoldable pub body : RequestBuilder H → Body → RequestBuilder H
  body b found = record b { body = some found }

  unfoldable pub timeout : RequestBuilder H → ℕ → RequestBuilder H
  timeout b d = record b { timeout = some d }

  -- `TryFrom<http::Request<T>> for Request`, at the URL of its URI.
  unfoldable pub from_http_request : Text → Result Error Url → H → Body → Result Error (Request H)
  from_http_request method url headers found = do
    u ← url
    ok (record { method = method; url = u; headers = headers; body = some found; timeout = none })

module _ (http : HeaderMapLib) where
  open http use {HeaderMap}

  -- The name is one that is accepted; of the value `HeaderValue::try_from` decides.
  abbrev authorization : RequestBuilder HeaderMap → Text → RequestBuilder HeaderMap
  authorization b value =
      header http b (some (codes "authorization")) (http.value_from_bytes (encode_utf8 value))

  unfoldable pub bearer_auth : RequestBuilder HeaderMap → Text → RequestBuilder HeaderMap
  unfolding header
  bearer_auth b token = authorization b (codes "Bearer " ++ token)

  unfoldable pub credentials : Text → Option Text → Text
  credentials username none = username ++ codes ":"
  credentials username (some password) = username ++ (codes ":" ++ password)

  unfoldable pub basic_auth :
      (List ℕ → Text) → RequestBuilder HeaderMap → Text → Option Text → RequestBuilder HeaderMap
  unfolding header credentials
  basic_auth encode_base64 b username password =
      authorization b
        (codes "Basic " ++ encode_base64 (encode_utf8 (credentials username password)))
