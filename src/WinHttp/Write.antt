-- ===== src/WinHttp/Write.antt =====
-- src/winhttp.rs: `write_data_with`, the loop that writes one buffer of a request body. `write_once` is
-- the completion of the n-th write, counted from 0, at its pointer and length. A `usize` has 64 bits.
-- Each write that the loop accepts advances it, so a loop for each byte left is enough.
pub mod Cover
use wrest.Error.{Error, ErrorKind, Source, message, io_error, write_zero, with_kind, with_url}
use wrest.Prelude.Result.{Result, ok, err, ◌>>=◌, ◌>>◌, ok_or, map_err, reject}
use wrest.Prelude.Text.{Text, codes, decimal}
use wrest.Prelude.{
  ℕ, zero, suc, ◌+◌, ◌-◌, Bool, true, false, ◌++◌, List, [], ◌∷◌, Option, none, some, if◌then◌else◌,
  ltb, leb, ◌==◌,
}
use wrest.Url.Types.{Url}

abbrev pub usize_max : ℕ
usize_max = 18446744073709551615

abbrev pub u32_max : ℕ
u32_max = 4294967295

abbrev pub checked_sub : ℕ → ℕ → Option ℕ
checked_sub a b = if leb b a then some (a - b) else none

abbrev pub checked_add : ℕ → ℕ → Option ℕ
checked_add a b = if leb (a + b) usize_max then some (a + b) else none

-- `Error::body`
abbrev pub body_error : Text → Error
body_error s = with_kind ErrorKind.body (message s)

-- `ResultUrlExt::url_context`
abbrev pub url_context : {A : Type 0} → Result Error A → Url → Result Error A
url_context m url = map_err (λ e. with_url e url) m

-- The source's message for a short write; the `io::Error` has the kind `WriteZero`.
abbrev pub write_zero_error : Error
write_zero_error = with_kind ErrorKind.body (io_error write_zero none)

abbrev pub too_many : ℕ → ℕ → Error
too_many bytes_written remaining = body_error (
    codes "WinHTTP reported "
    ++ (decimal bytes_written
        ++ (codes " bytes written for a " ++ (decimal remaining ++ codes "-byte buffer"))))

unfoldable pub advance_write_offset : ℕ → ℕ → ℕ → Url → Result Error ℕ
advance_write_offset offset total_len bytes_written url = do
  remaining ←
      url_context
        (ok_or (checked_sub total_len offset)
          (body_error (codes "WinHTTP write offset exceeds buffer length")))
        url
  reject (bytes_written == 0) (with_url write_zero_error url)
  reject (ltb remaining bytes_written) (with_url (too_many bytes_written remaining) url)
  url_context
      (ok_or (checked_add offset bytes_written)
        (body_error (codes "WinHTTP write offset overflow")))
      url

-- A write: where it starts, its length, and how many bytes of it were written.
pub record Write : Type 0 where
  pub ptr : ℕ
  pub len : ℕ
  pub written : ℕ

module _ (write_once : ℕ → ℕ → ℕ → Result Error ℕ) (data_ptr data_len : ℕ) (url : Url) where
  -- One round: the write, and the offset after it.
  unfoldable pub write_round : ℕ → ℕ → Result Error (Write × ℕ)
  unfolding advance_write_offset
  write_round n offset = do
    remaining ←
        url_context
          (ok_or (checked_sub data_len offset)
            (body_error (codes "WinHTTP write offset exceeds buffer length")))
          url
    ptr ←
        url_context
          (ok_or (checked_add data_ptr offset)
            (body_error (codes "WinHTTP write pointer overflow")))
          url
    reject (ltb u32_max remaining)
        (with_url (body_error (codes "WinHTTP write buffer exceeds 4 GiB")) url)
    written ← url_context (write_once n ptr remaining) url
    next ← advance_write_offset offset data_len written url
    ok (record { ptr = ptr; len = remaining; written = written }, next)

  -- The rounds from an offset on: the accepted writes in order, and how the loop ends. `none` is a loop
  -- that has not ended with the fuel.
  unfoldable pub write_loop : ℕ → ℕ → ℕ → List Write × Option (Result Error (Unit {0}))
  unfolding write_round
  write_loop zero n offset = ([], if ltb offset data_len then none else some (ok tt))
  write_loop (suc fuel) n offset =
      let step = write_round n offset in
      if ltb offset data_len
      then elim step [
        | err e ↦ ([], some (err e))
        | ok (w, next) ↦ let rest = write_loop fuel (suc n) next in (w ∷ rest.0, rest.1)
      ]
      else ([], some (ok tt))

  unfoldable pub write_data_with : List Write × Option (Result Error (Unit {0}))
  unfolding write_loop
  write_data_with = write_loop data_len 0 0
