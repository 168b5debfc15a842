-- ===== src/WinHttp/Events.antt =====
-- src/winhttp.rs: what the status callback delivers, what the awaiting code makes of it, and the errors.
-- The bits of a word of TLS failure flags are given by their meaning, which takes for granted that the
-- constants of `windows-sys` are different bits.
use wrest.Callback.{SignalCancelled}
use wrest.Error.{
  Error, ErrorKind, Source, Win32Code, secure_failure, context, message, with_kind, with_url,
  from_win32, IoErrorKind,
}
use wrest.Prelude.Result.{Result, ok, err}
use wrest.Prelude.Text.{Text, codes, decimal}
use wrest.Prelude.{ℕ, Bool, List, [], ◌∷◌, ◌++◌, none, some, if◌then◌else◌}
use wrest.Url.Types.{Url}
use wrest.WinHttp.Redirect.{RequestState, take_reason}

pub data CallbackEvent : Type 0 where
  complete : CallbackEvent
  read_complete write_complete : ℕ → CallbackEvent
  win32_error : Win32Code → CallbackEvent

pub data TlsFlag : Type 0 where
  cert_rev_failed invalid_cert cert_revoked invalid_ca cert_cn_invalid cert_date_invalid : TlsFlag
  security_channel_error : TlsFlag

-- The word of flags: which of the bits are set.
abbrev pub TlsFlags : Type 0
TlsFlags = TlsFlag → Bool

-- The tests of `describe_tls_failure`, in order, with what each says.
abbrev pub tls_parts : List (TlsFlag × Text)
tls_parts =
    (cert_rev_failed, codes "revocation check failed")
    ∷ (invalid_cert, codes "invalid certificate")
    ∷ (cert_revoked, codes "certificate revoked")
    ∷ (invalid_ca, codes "invalid CA")
    ∷ (cert_cn_invalid, codes "certificate CN mismatch")
    ∷ (cert_date_invalid, codes "certificate expired or not yet valid")
    ∷ (security_channel_error, codes "security channel error")
    ∷ []

unfoldable pub push_parts : TlsFlags → List (TlsFlag × Text) → List Text
push_parts flags [] = []
push_parts flags ((flag, part) ∷ tests) =
    let rest = push_parts flags tests in if flags flag then part ∷ rest else rest

-- `[Text]::join`
unfoldable pub join : Text → List Text → Text
join sep [] = []
join sep (part ∷ []) = part
join sep (part ∷ next ∷ rest) = part ++ (sep ++ join sep (next ∷ rest))

unfoldable pub describe_tls_failure : TlsFlags → Text
unfolding push_parts join
describe_tls_failure flags = elim (push_parts flags tls_parts) [
  | [] ↦ codes "unknown TLS failure"
  | part ∷ parts ↦ join (codes ", ") (part ∷ parts)
]

-- `Error::request`
abbrev pub request_error : Text → Error
request_error s = with_kind ErrorKind.request (message s)

-- `From<SignalCancelled> for Error`
abbrev pub from_signal_cancelled : SignalCancelled → Error
from_signal_cancelled _ = with_kind ErrorKind.request Source.signal_cancelled

-- The number of a code, which its `Debug` form shows.
module _ (number : Win32Code → ℕ) where
  -- The derived `Debug`.
  abbrev pub debug_event : CallbackEvent → Text
  debug_event complete = codes "Complete"
  debug_event (read_complete n) = codes "ReadComplete(" ++ (decimal n ++ codes ")")
  debug_event (write_complete n) = codes "WriteComplete(" ++ (decimal n ++ codes ")")
  debug_event (win32_error code) = codes "Win32Error(" ++ (decimal (number code) ++ codes ")")

  unfoldable pub unexpected : CallbackEvent → Url → Error
  unexpected event url =
      with_url (request_error (codes "unexpected callback event: " ++ debug_event event)) url

-- `code == ERROR_WINHTTP_SECURE_FAILURE`
unfoldable pub is_secure_failure : Win32Code → Bool
is_secure_failure secure_failure = Bool.true
is_secure_failure _ = Bool.false

module _ (decode_error_kind : Win32Code → IoErrorKind) where
  -- The error of a code, with the details that the flags give.
  unfoldable pub win32_error_at : Win32Code → TlsFlags → Url → Error
  unfolding is_secure_failure
  win32_error_at code flags url =
      let e = with_url (from_win32 decode_error_kind code) url in
      if is_secure_failure code
      then elim e.source [
        | none ↦ e
        | some source ↦ record e {
          source = some (context (codes "TLS error: " ++ describe_tls_failure flags) source);
        }
      ]
      else e

  -- What is left of the request's state, and the error.
  unfoldable pub callback_error_to_error :
      Win32Code → RequestState → TlsFlags → Url → RequestState × Error
  unfolding win32_error_at
  callback_error_to_error code state flags url =
      let taken = take_reason state.callback_abort in
      let state' = record state { callback_abort = taken.0 } in
      elim taken.1 [
        | some reason ↦ (state', with_url reason url)
        | none ↦ (state', win32_error_at code flags url)
      ]

  module _ (number : Win32Code → ℕ) where
    unfoldable pub into_result :
        CallbackEvent → RequestState → TlsFlags → Url → RequestState × Result Error (Unit {0})
    unfolding callback_error_to_error
    into_result complete state flags url = (state, ok tt)
    into_result (win32_error code) state flags url =
        let failed = callback_error_to_error code state flags url in (failed.0, err failed.1)
    into_result other state flags url = (state, err (unexpected number other url))

    unfoldable pub into_read_complete : CallbackEvent → Url → Result Error ℕ
    into_read_complete (read_complete n) url = ok n
    into_read_complete (win32_error code) url =
        err (with_url (from_win32 decode_error_kind code) url)
    into_read_complete other url = err (unexpected number other url)

    unfoldable pub into_write_complete : CallbackEvent → Url → Result Error ℕ
    into_write_complete (write_complete n) url = ok n
    into_write_complete (win32_error code) url =
        err (with_url (from_win32 decode_error_kind code) url)
    into_write_complete other url = err (unexpected number other url)
