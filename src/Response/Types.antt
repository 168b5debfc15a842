-- ===== src/Response/Types.antt =====
-- src/response.rs and src/winhttp.rs: `RawResponse`, `Response` and its simple queries. The type of
-- header maps is a parameter, and a request handle is a number.
use wrest.Error.{Error, status_error}
use wrest.Prelude.Result.{Result, ok, err}
use wrest.Prelude.{ℕ, Bool, ◌&&◌, ◌||◌, Option, some, if◌then◌else◌, leb, ltb}
use wrest.Url.Types.{Url}

pub data Version : Type 0 where
  http_10 http_11 http_2 http_3 : Version

pub record RawResponse (HeaderMap : Type 0) : Type 0 where
  pub request_handle : ℕ
  pub status : ℕ
  pub version : Version
  pub url : Url
  pub headers : HeaderMap

pub record Response (HeaderMap : Type 0) : Type 0 where
  pub status : ℕ
  pub version : Version
  pub url : Url
  pub headers : HeaderMap
  pub raw : Option (RawResponse HeaderMap)
  pub deadline : Option ℕ

-- `StatusCode::is_redirection`, `is_client_error` and `is_server_error`.
abbrev pub is_redirection : ℕ → Bool
is_redirection s = leb 300 s && ltb s 400

abbrev pub is_client_error : ℕ → Bool
is_client_error s = leb 400 s && ltb s 500

abbrev pub is_server_error : ℕ → Bool
is_server_error s = leb 500 s && ltb s 600

module _ {H : Type 0} where
  unfoldable pub from_raw : RawResponse H → Option ℕ → Response H
  from_raw raw deadline = record {
    status = raw.status;
    version = raw.version;
    url = raw.url;
    headers = raw.headers;
    raw = some raw;
    deadline = deadline;
  }

  unfoldable pub error_for_status : Response H → Result Error (Response H)
  error_for_status r =
      if is_client_error r.status || is_server_error r.status
      then err (status_error r.status r.url)
      else ok r
