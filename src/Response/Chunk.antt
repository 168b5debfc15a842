-- ===== src/Response/Chunk.antt =====
-- src/response.rs: reading the body. Each read is an input: what `read_chunk` returns, the clock when it
-- is started and that of the poll that finds it done, and the clock of the poll that finds the timer
-- fired, if it ever fires. `select` polls the read first. A `usize` has 64 bits.
use wrest.Body.{Body, wrap_stream}
use wrest.Encoding.{Abi, decode_body}
use wrest.Error.{
  Error, ErrorKind, Source, foreign, foreign_from, message, with_kind, with_url, status_error,
}
use wrest.Http.{HeaderMapLib, get}
use wrest.Prelude.Result.{Result, ok, err, ◌>>=◌, map_err}
use wrest.Prelude.Text.{Text, codes, is_empty}
use wrest.Prelude.{
  ℕ, ◌-◌, Bool, true, false, ◌||◌, List, [], ◌∷◌, ◌++◌, map, Option, none, some, if◌then◌else◌, leb,
  ◌==◌, length, concat,
}
use wrest.Response.Types.{Response, Version, is_client_error, is_server_error}
use wrest.Url.Types.{Url}
use wrest.WinHttp.Write.{checked_add}

pub record Read : Type 0 where
  pub start : ℕ
  pub end : ℕ
  pub fired : Option ℕ
  pub result : Result Error (Option (List ℕ))

abbrev pub body_error : Text → Error
body_error s = with_kind ErrorKind.body (message s)

abbrev pub consumed_error : Error
consumed_error = body_error (codes "response body already consumed")

abbrev pub elapsed_error : Url → Error
elapsed_error url =
    with_url
      (with_kind ErrorKind.timeout
        (message (codes "total request timeout elapsed during body read")))
      url

abbrev pub too_large_error : Url → Error
too_large_error url = with_url (body_error (codes "response body too large")) url

-- The read raced against the timer for the rest of the deadline; `none` is a timeout.
unfoldable pub race_read : Option ℕ → Read → Option (Result Error (Option (List ℕ)))
race_read none read = some read.result
race_read (some deadline) read = if (deadline - read.start) == 0 then none else elim read.fired [
  | none ↦ some read.result
  | some t ↦ if leb read.end t then some read.result else none
]

-- The end of `collect_body`: no part, one part, or several that are copied together.
unfoldable pub join_parts : List (List ℕ) → List ℕ
join_parts [] = []
join_parts (first ∷ []) = first
join_parts (first ∷ second ∷ rest) = first ++ concat (second ∷ rest)

-- An `Error` as a `BoxError`.
abbrev boxed : Error → Source
boxed e = elim e.source [ none ↦ foreign | some s ↦ foreign_from s ]

pub record ResponseParts (HeaderMap : Type 0) : Type 0 where
  pub status : ℕ
  pub version : Version
  pub headers : HeaderMap

module _ {H : Type 0} where
  unfoldable pub error_for_status_ref : Response H → Result Error (Response H)
  error_for_status_ref r =
      if is_client_error r.status || is_server_error r.status
      then err (status_error r.status r.url)
      else ok r

  abbrev close_raw : Response H → Response H
  close_raw r = record r { raw = none }

  -- The `match` on the outcome. An error of the read is returned before it and leaves the handle.
  unfoldable pub settle_read :
      Response H
      → Option (Result Error (Option (List ℕ)))
      → Response H × Result Error (Option (List ℕ))
  settle_read r none = (close_raw r, err (elapsed_error r.url))
  settle_read r (some (err e)) = (r, err e)
  settle_read r (some (ok none)) = (close_raw r, ok none)
  settle_read r (some (ok (some bytes))) = (r, ok (some bytes))

  unfoldable pub chunk : Response H → Read → Response H × Result Error (Option (List ℕ))
  unfolding race_read settle_read
  chunk r read = elim r.raw [
    | none ↦ (r, err consumed_error)
    | some _ ↦ settle_read r (race_read r.deadline read)
  ]

  -- The stream of `bytes_stream`: its items for some reads, and whether it has ended.
  unfoldable pub bytes_stream : Response H → List Read → List (Result Error (List ℕ)) × Bool
  bytes_stream r [] = ([], false)
  bytes_stream r (read ∷ reads) =
      let (r', item) = chunk r read in
      let rest = bytes_stream r' reads in
      elim item [
        | err e ↦ (err e ∷ [], true)
        | ok next ↦ elim next [ none ↦ ([], true) | some bytes ↦ (ok bytes ∷ rest.0, rest.1) ]
      ]

  -- The loop of `collect_body` at its parts and their length; `none` when the reads are used up.
  unfoldable pub collect_loop :
      List (List ℕ) → ℕ → Response H → List Read → Response H × Option (Result Error (List ℕ))
  unfolding join_parts
  collect_loop parts total_len r [] = (r, none)
  collect_loop parts total_len r (read ∷ reads) =
      let (r', item) = chunk r read in
      elim item [
        | err e ↦ (r', some (err e))
        | ok next ↦ elim next [
          | none ↦ (close_raw r', some (ok (join_parts parts)))
          | some bytes ↦ elim (checked_add total_len (length bytes)) [
            | none ↦ (r', some (err (too_large_error r'.url)))
            | some total ↦ collect_loop (parts ++ (bytes ∷ [])) total r' reads
          ]
        ]
      ]

  unfoldable pub collect_body : Response H → List Read → Response H × Option (Result Error (List ℕ))
  unfolding collect_loop
  collect_body r reads = collect_loop [] 0 r reads

  -- `Response::bytes`
  unfoldable pub bytes : Response H → List Read → Option (Result Error (List ℕ))
  unfolding collect_body
  bytes r reads = (collect_body r reads).1

  -- `From<Response> for Body`, the body that the reads make of the stream.
  unfoldable pub into_body : Response H → List Read → Body
  unfolding bytes_stream
  into_body r reads =
      wrap_stream
        (map (λ (item : Result Error (List ℕ)). map_err boxed item) (bytes_stream r reads).0)

  -- `Response::into_parts`, at the empty header map, with the response that drives the stream.
  unfoldable pub into_parts : H → Response H → ResponseParts H × Response H
  into_parts empty r = (
    record { status = r.status; version = r.version; headers = r.headers },
    record r { headers = empty },
  )

-- `str::parse::<u64>` and the parsing of a media type, with the parameter `charset`, are parameters.
module _ (http : HeaderMapLib) where
  open http use {HeaderMap}

  unfoldable pub content_length : (Text → Option ℕ) → Response HeaderMap → Option ℕ
  content_length parse_u64 r = elim (get http r.headers (codes "content-length")) [
    | none ↦ none
    | some value ↦ elim (http.to_str value) [ none ↦ none | some s ↦ parse_u64 s ]
  ]

  unfoldable pub extract_charset_from_content_type :
      (Text → Option (Option Text)) → HeaderMap → Option Text
  extract_charset_from_content_type mime_charset headers =
      elim (get http headers (codes "content-type")) [
        | none ↦ none
        | some value ↦ elim (http.to_str value) [
          | none ↦ none
          | some s ↦ elim (mime_charset s) [
            | none ↦ none
            | some charset ↦ elim charset [
              | none ↦ none
              | some name ↦ if is_empty name then none else some name
            ]
          ]
        ]
      ]

  -- `Response::text_with_charset`, and `text` at `utf-8`.
  unfoldable pub text_with_charset :
      Abi
      → (Text → Option (Option Text))
      → Response HeaderMap
      → Text
      → List Read
      → Option (Result Error Text)
  unfolding extract_charset_from_content_type bytes
  text_with_charset abi mime_charset r default_encoding reads =
      let charset : Text = elim (extract_charset_from_content_type mime_charset r.headers) [
        | none ↦ default_encoding
        | some name ↦ name
      ] in
      elim (bytes r reads) [
        | none ↦ none
        | some body ↦ some (body >>= λ found. decode_body abi found charset)
      ]

  unfoldable pub text :
      Abi
      → (Text → Option (Option Text))
      → Response HeaderMap
      → List Read
      → Option (Result Error Text)
  unfolding text_with_charset
  text abi mime_charset r reads = text_with_charset abi mime_charset r (codes "utf-8") reads
