-- ===== src/WinHttp/Send.antt =====
-- src/winhttp.rs: the three ways in which `execute_request` sends a body.
pub mod Chunked
pub mod Pieces
use wrest.Error.{Error, ErrorKind, Source, context, message, with_kind, with_url}
use wrest.Prelude.Result.{Result, ok, err}
use wrest.Prelude.Text.{Text, codes, decimal}
use wrest.Prelude.{
  ℕ, zero, suc, ◌+◌, ◌-◌, ◌/◌, ◌%◌, Bool, true, false, List, [], ◌∷◌, ◌++◌, Option, none, some,
  if◌then◌else◌, ltb, leb, length, take, drop, is_empty_list, min, ◌==◌,
}
use wrest.Url.Types.{Url}
use wrest.WinHttp.Transport.{Op, Winhttp, pure, fail, went_on, ◌>>=◌, ◌>>◌, at_url}
use wrest.WinHttp.Write.{u32_max}

-- `LARGE_BODY_THRESHOLD` and `LARGE_BODY_CHUNK_MAX` of a build that is no test.
abbrev pub large_body_threshold : ℕ
large_body_threshold = u32_max

abbrev pub large_body_chunk_max : ℕ
large_body_chunk_max = u32_max

abbrev pub hex_digit : ℕ → ℕ
hex_digit d = if ltb d 10 then d + 48 else d + 87

-- The digits of a number below the fuel, before some text.
unfoldable pub hex_onto : ℕ → ℕ → Text → Text
hex_onto zero n s = s
hex_onto (suc fuel) n s =
    let more = hex_onto fuel (n / 16) (hex_digit (n % 16) ∷ s) in
    if n / 16 == 0 then hex_digit (n % 16) ∷ s else more

-- The format `{:x}` of an unsigned number.
unfoldable pub lower_hex : ℕ → Text
unfolding hex_onto
lower_hex n = hex_onto (n + 1) n []

abbrev pub crlf : List ℕ
crlf = 13 ∷ 10 ∷ []

-- One chunk in the framing of chunked transfer encoding.
unfoldable pub chunk_frame : List ℕ → List ℕ
unfolding lower_hex
chunk_frame chunk = (lower_hex (length chunk) ++ crlf) ++ (chunk ++ crlf)

abbrev pub terminator : List ℕ
terminator = codes "0" ++ (crlf ++ crlf)

abbrev pub stream_error : Url → Source → Error
stream_error url e =
    with_url (with_kind ErrorKind.request (context (codes "stream body error") e)) url

module _ {W : Type 0} (abi : Winhttp W) (url : Url) where
  -- The loop over the stream, and the terminator after its end.
  unfoldable pub write_stream : List (Result Source (List ℕ)) → Op W (Unit {0})
  unfolding chunk_frame
  write_stream [] = abi.write_data terminator
  write_stream (err e ∷ items) = fail (stream_error url e)
  write_stream (ok chunk ∷ items) =
      let rest = write_stream items in
      if is_empty_list chunk then rest else (abi.write_data (chunk_frame chunk) >> rest)

  -- Path 3: chunked transfer encoding.
  unfoldable pub send_stream : List (Result Source (List ℕ)) → Op W (Unit {0})
  unfolding write_stream
  send_stream items = do
    at_url url (abi.add_request_header (codes "Transfer-Encoding: chunked" ++ crlf))
    abi.send_request [] 0
    write_stream items

  -- The loop that writes a large body in pieces of at most `chunk_max` bytes, from an offset on.
  unfoldable pub write_pieces : ℕ → ℕ → List ℕ → ℕ → Op W (Unit {0})
  write_pieces zero chunk_max body offset = pure tt
  write_pieces (suc fuel) chunk_max body offset =
      let remaining = length body - offset in
      let chunk_size = min remaining chunk_max in
      let rest = write_pieces fuel chunk_max body (offset + chunk_size) in
      if ltb offset (length body)
      then (abi.write_data (take chunk_size (drop offset body)) >> rest)
      else pure tt

  -- Path 2: headers only, and then the pieces.
  unfoldable pub send_large : List ℕ → Op W (Unit {0})
  unfolding write_pieces
  send_large body = do
    at_url url
        (abi.add_request_header (codes "Content-Length: " ++ (decimal (length body) ++ crlf)))
    abi.send_request [] 0
    write_pieces (length body) large_body_chunk_max body 0

-- Path 1: everything in one call.
unfoldable pub send_inline : {W : Type 0} → Winhttp W → List ℕ → Op W (Unit {0})
send_inline abi body = abi.send_request body (length body)
