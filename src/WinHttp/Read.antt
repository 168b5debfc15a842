-- ===== src/WinHttp/Read.antt =====
-- src/winhttp.rs: `read_chunk`. The buffer that is lent to WinHTTP is its capacity and what WinHTTP has
-- written at its start; the outcome of `await_win32` is an input.
use wrest.Error.{Error, IoErrorKind, Win32Code, with_url}
use wrest.Prelude.Result.{Result, ok, err, ◌>>=◌}
use wrest.Prelude.Text.{codes, decimal}
use wrest.Prelude.{
  ℕ, ◌<◌, ◌≤◌, ◌≡◌, List, ◌++◌, Option, none, some, if◌then◌else◌, ltb, ◌==◌, take, length, arith,
  refl, length-take, ap, sym, ◌∙◌,
}
use wrest.Url.Types.{Url}
use wrest.WinHttp.Events.{CallbackEvent, into_read_complete, request_error}

pub record ReadBuffer : Type 0 where
  pub capacity : ℕ
  pub written : List ℕ

abbrev pub missing_buffer : Error
missing_buffer = request_error (codes "read buffer missing after read (invariant violated)")

abbrev pub over_capacity : ℕ → ℕ → Error
over_capacity read capacity = request_error (
    codes "WinHTTP reported "
    ++ (decimal read
        ++ (codes " bytes read but buffer capacity is "
            ++ (decimal capacity ++ codes " (invariant violated)"))))

module _ (decode_error_kind : Win32Code → IoErrorKind) (number : Win32Code → ℕ) where
  -- After the read, at the slot of the buffer.
  unfoldable pub finish_read :
      Option ReadBuffer → ℕ → Url → Option ReadBuffer × Result Error (Option (List ℕ))
  finish_read slot read url = if read == 0 then (none, ok none) else elim slot [
    | none ↦ (none, err (with_url missing_buffer url))
    | some buffer ↦
        if ltb buffer.capacity read
        then (none, err (with_url (over_capacity read buffer.capacity) url))
        else (none, ok (some (take read buffer.written)))
  ]

  -- What `read_chunk` makes of the number that was read, or its failure.
  unfoldable pub settle :
      ReadBuffer → Url → Result Error ℕ → Option ReadBuffer × Result Error (Option (List ℕ))
  unfolding finish_read
  settle buffer url (err e) = (some buffer, err e)
  settle buffer url (ok read) = finish_read (some buffer) read url

  -- `read_chunk`, at the buffer that it lends and the outcome of the read: the slot and the result.
  unfoldable pub read_chunk :
      ReadBuffer
      → Result Error CallbackEvent
      → Url
      → Option ReadBuffer × Result Error (Option (List ℕ))
  unfolding settle
  read_chunk buffer outcome url =
      settle buffer url (outcome >>= λ event. into_read_complete decode_error_kind number event url)

  settle-chunk :
      (buffer : ReadBuffer) (url : Url) (r : Result Error ℕ) (chunk : List ℕ)
      → (settle buffer url r).1 ≡ ok (some chunk)
      → (read : ℕ) × (r ≡ ok read)
        × (0 < read)
        × (read ≤ buffer.capacity)
        × (chunk ≡ take read buffer.written)
  unfolding settle finish_read
  settle-chunk buffer url (err e) chunk went = cc
  settle-chunk buffer url (ok read) chunk went =
      (read, refl, ground arith, ground arith, ground arith)

  -- A chunk has at least one byte and at most the buffer's capacity, and is what was written first.
  read_chunk-bounds :
      (buffer : ReadBuffer) (outcome : Result Error CallbackEvent) (url : Url) (chunk : List ℕ)
      → buffer.capacity ≤ length buffer.written
      → (read_chunk buffer outcome url).1 ≡ ok (some chunk)
      → (0 < length chunk)
        × (length chunk ≤ buffer.capacity)
        × (chunk ≡ take (length chunk) buffer.written)
  unfolding read_chunk
  read_chunk-bounds buffer outcome url chunk filled went =
      let chain = outcome >>= λ event. into_read_complete decode_error_kind number event url in
      let (read, _, some_bytes, fits, is) = settle-chunk buffer url chain chunk went in
      let size : length chunk ≡ read =
        ap (λ (t : List ℕ). length t) is ∙ length-take read buffer.written ∙ omega arith in
      (omega arith, omega arith, is ∙ ap (λ n. take n buffer.written) (sym size))
