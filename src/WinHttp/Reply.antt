-- ===== src/WinHttp/Reply.antt =====
-- src/winhttp.rs: what is read of a response before its body: status code, version and headers.
pub mod Headers
pub mod Status
use wrest.Encoding.Utf8RoundTrip.{encode_utf8}
use wrest.Error.{Error, ErrorKind, context, foreign, message, with_kind, with_url}
use wrest.Http.{HeaderMapLib}
use wrest.Prelude.Result.{Result, ok, err, ◌>>=◌, map_err, ok_or}
use wrest.Prelude.Text.{
  Text, codes, decimal, is_empty, split, split_once, starts_with, text_eq, trim,
}
use wrest.Prelude.{
  ℕ, Bool, true, false, ◌&&◌, ◌||◌, List, [], ◌∷◌, ◌++◌, map, Option, none, some, if◌then◌else◌,
  leb, ◌==◌,
}
use wrest.Response.Types.{Version, http_10, http_11, http_2, http_3}
use wrest.Url.Types.{Url}

abbrev pub invalid_status : ℕ → Text
invalid_status code = codes "invalid status code: " ++ decimal code

-- `StatusCode::from_u16` of the crate `http` is a parameter.
module _ (from_u16 : ℕ → Option ℕ) where
  unfoldable pub parse_winhttp_status_code : ℕ → Url → Result Error ℕ
  parse_winhttp_status_code code url = do
    narrow ←
        if leb code 65535
        then ok code
        else err (with_url (with_kind ErrorKind.request (message (invalid_status code))) url)
    ok_or (from_u16 narrow)
        (with_url (with_kind ErrorKind.request (context (invalid_status code) foreign)) url)

-- The bits of the negotiated protocol that are tested.
pub record ProtocolFlags : Type 0 where
  pub http3 : Bool
  pub http2 : Bool

abbrev version_of_header : Option Text → Version
version_of_header none = http_11
version_of_header (some s) =
    if text_eq s (codes "HTTP/1.0")
    then http_10
    else if text_eq s (codes "HTTP/1.1")
    then http_11
    else http_11

unfoldable pub resolve_version : Option ProtocolFlags → Option Text → Version
resolve_version none version_str = version_of_header version_str
resolve_version (some flags) version_str =
    if flags.http3 then http_3 else if flags.http2 then http_2 else version_of_header version_str

-- A piece that a line feed ended, without a carriage return at its end.
unfoldable pub strip_cr : Text → Text
strip_cr [] = []
strip_cr (c ∷ s) = let rest = strip_cr s in if c == 13 && is_empty s then [] else c ∷ rest

-- The last piece is no line where it is empty, and keeps a carriage return.
abbrev pub finish_lines : List Text → List Text
finish_lines [] = []
finish_lines (p ∷ []) = if is_empty p then [] else p ∷ []
finish_lines (p ∷ q ∷ ps) = strip_cr p ∷ finish_lines (q ∷ ps)

-- `str::lines`
unfoldable pub lines : Text → List Text
unfolding strip_cr
lines s = finish_lines (split 10 s)

module _ (http : HeaderMapLib) where
  open http use {HeaderMap, name_from_bytes, value_from_bytes}

  -- The name and value of a line, where it is a header.
  unfoldable pub header_of_line : Text → Option (Text × List ℕ)
  header_of_line line =
      if is_empty line || starts_with (codes "HTTP/") line
      then none
      else elim (split_once b':' line) [
        | none ↦ none
        | some (name, value) ↦ elim (name_from_bytes (encode_utf8 (trim name))) [
          | none ↦ none
          | some n ↦ elim (value_from_bytes (encode_utf8 (trim value))) [
            | none ↦ none
            | some v ↦ some (n, v)
          ]
        ]
      ]

  -- The loop over the lines.
  unfoldable pub append_lines : HeaderMap → List Text → HeaderMap
  append_lines headers [] = headers
  append_lines headers (line ∷ rest) =
      append_lines
        (elim (header_of_line line) [ none ↦ headers | some (n, v) ↦ http.append headers n v ]) rest

  unfoldable pub parse_raw_headers : Text → HeaderMap
  unfolding append_lines
  parse_raw_headers raw = append_lines http.empty (lines raw)
