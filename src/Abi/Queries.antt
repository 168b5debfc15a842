-- ===== src/Abi/Queries.antt =====
-- src/abi/winhttp.rs: the reading of headers and options, in two calls where the size is not known. The
-- answers of WinHTTP are a parameter.
use wrest.Encoding.Decoders.{from_utf16_lossy}
use wrest.Error.{Error}
use wrest.Prelude.Result.{Result, ok, err}
use wrest.Prelude.Text.{Text}
use wrest.Prelude.{
  ℕ, Bool, not, ◌||◌, ◌/◌, List, [], Option, none, some, if◌then◌else◌, leb, ◌==◌, take, length,
}
use wrest.Util.{strip_nul}

-- An answer: whether the call succeeded, `GetLastError` after it, the size in octets that it leaves,
-- and the units of the buffer.
pub record Answer : Type 0 where
  pub succeeded : Bool
  pub last_error : ℕ
  pub size : ℕ
  pub buf : List ℕ

-- `Error::from_win32`, and the code for a buffer that is too small.
module _ (from_win32 : ℕ → Error) (error_insufficient_buffer : ℕ) where
  -- `WinHttpQueryOption` without a buffer, and with one of the given number of units.
  unfoldable pub winhttp_query_option_url : Answer → (ℕ → Answer) → Option Text
  unfolding strip_nul from_utf16_lossy
  winhttp_query_option_url first fill =
      let answer = fill (first.size / 2) in
      if first.succeeded || first.size == 0
      then none
      else if not (first.last_error == error_insufficient_buffer)
      then none
      else if answer.succeeded
      then some (from_utf16_lossy (strip_nul (take (answer.size / 2) answer.buf)))
      else none

  -- `WinHttpQueryHeaders` of the header block, likewise.
  unfoldable pub winhttp_query_raw_headers : Answer → (ℕ → Answer) → Result Error Text
  unfolding from_utf16_lossy
  winhttp_query_raw_headers first fill =
      let answer = fill (first.size / 2) in
      if first.succeeded
      then ok []
      else if not (first.last_error == error_insufficient_buffer)
      then err (from_win32 first.last_error)
      else if first.size == 0
      then ok []
      else if answer.succeeded
      then ok (from_utf16_lossy (take (answer.size / 2) answer.buf))
      else err (from_win32 answer.last_error)

-- `slice::get(..len)`
abbrev pub get_to : ℕ → List ℕ → Option (List ℕ)
get_to len buf = if leb len (length buf) then some (take len buf) else none

-- A short header, in a buffer of 16 units.
unfoldable pub winhttp_query_header_string : Answer → Option Text
unfolding from_utf16_lossy
winhttp_query_header_string answer =
    if answer.succeeded
    then elim (get_to (answer.size / 2) answer.buf) [
      | none ↦ none
      | some units ↦ some (from_utf16_lossy units)
    ]
    else none

abbrev u32_max : ℕ
u32_max = 4294967295

-- The length that `winhttp_read_data` passes on.
unfoldable pub dword_of : ℕ → ℕ
dword_of buf_len = if leb buf_len u32_max then buf_len else u32_max
