-- ===== src/Error.antt =====
-- src/error.rs: the error type, its classification of Win32 codes, and its chain of sources.
-- The `ERROR_WINHTTP_*` constants of `windows-sys` that the sources name are constructors of
-- `Win32Code`, which takes for granted that they are different codes; any other code is `other`.
pub mod Classify
pub mod Display
use wrest.Prelude.Text.{Text}
use wrest.Prelude.{ℕ, Bool, true, false, Option, none, some}
use wrest.Url.Types.{Url}

pub data Win32Code : Type 0 where
  cannot_connect name_not_resolved connection_error secure_failure : Win32Code
  client_auth_cert_needed client_auth_cert_needed_proxy : Win32Code
  client_cert_no_private_key client_cert_no_access_private_key : Win32Code
  timeout redirect_failed internal_error header_not_found : Win32Code
  other : ℕ → Win32Code

-- The `std::io::ErrorKind`s that the sources name; any other is `uncategorized`.
pub data IoErrorKind : Type 0 where
  connection_refused connection_reset timed_out write_zero uncategorized : IoErrorKind

-- A `BoxError` and what `source()` leads to. An `io_error` holds its kind and its `raw_os_error()`.
-- An `io::Error` made by `io::Error::new` from a raw OS error has no raw code of its own, and its
-- `source()` is that of the raw error, which has none.
pub data Source : Type 0 where
  message : Text → Source
  io_error : IoErrorKind → Option Win32Code → Source
  context : Text → Source → Source
  signal_cancelled : Source
  foreign : Source
  foreign_from : Source → Source

pub data ErrorKind : Type 0 where
  builder connect timeout status request body redirect decode upgrade : ErrorKind

pub record Error : Type 0 where
  pub kind : ErrorKind
  pub source : Option Source
  pub status : Option ℕ
  pub url : Option Url

-- `e.source()` of the chain.
unfoldable pub next_source : Source → Option Source
next_source (context _ s) = some s
next_source (foreign_from s) = some s
next_source _ = none

-- What `downcast_ref::<io::Error>` followed by the test of its kind says of one link.
unfoldable pub is_reset_link : Source → Bool
is_reset_link (io_error connection_reset _) = true
is_reset_link _ = false

-- The walk of `is_connection_reset`, from one link on.
unfoldable pub walks_to_reset : Source → Bool
walks_to_reset (message _) = false
walks_to_reset (io_error connection_reset _) = true
walks_to_reset (io_error _ _) = false
walks_to_reset (context _ s) = walks_to_reset s
walks_to_reset signal_cancelled = false
walks_to_reset foreign = false
walks_to_reset (foreign_from s) = walks_to_reset s

-- `Error::is_connection_reset`
unfoldable pub is_connection_reset : Error → Bool
unfolding walks_to_reset
is_connection_reset e = elim e.source [ none ↦ false | some s ↦ walks_to_reset s ]

unfoldable pub without_url : Error → Error
without_url e = record e { url = none }

unfoldable pub with_url : Error → Url → Error
with_url e u = record e { url = some u }

-- `Error::with_kind`, and through it `Error::builder`, `timeout`, `body`, `decode`, `request`, `redirect`.
abbrev pub with_kind : ErrorKind → Source → Error
with_kind k s = record { kind = k; source = some s; status = none; url = none }

unfoldable pub status_error : ℕ → Url → Error
status_error code u = record {
  kind = ErrorKind.status;
  source = none;
  status = some code;
  url = some u;
}

unfoldable pub error_kind_from_win32 : Win32Code → ErrorKind
error_kind_from_win32 cannot_connect = connect
error_kind_from_win32 name_not_resolved = connect
error_kind_from_win32 connection_error = connect
error_kind_from_win32 secure_failure = connect
error_kind_from_win32 client_auth_cert_needed = connect
error_kind_from_win32 client_auth_cert_needed_proxy = connect
error_kind_from_win32 client_cert_no_private_key = connect
error_kind_from_win32 client_cert_no_access_private_key = connect
error_kind_from_win32 Win32Code.timeout = ErrorKind.timeout
error_kind_from_win32 redirect_failed = redirect
error_kind_from_win32 _ = request

-- The kind that `io::Error::from_raw_os_error` gives a code is decided by the standard library's
-- table of the target: a parameter.
module _ (decode_error_kind : Win32Code → IoErrorKind) where
  unfoldable pub io_error_from_winhttp : Win32Code → Source
  io_error_from_winhttp cannot_connect = io_error connection_refused none
  io_error_from_winhttp connection_error = io_error connection_reset none
  io_error_from_winhttp Win32Code.timeout = io_error timed_out none
  io_error_from_winhttp code = io_error (decode_error_kind code) (some code)

  unfoldable pub from_win32 : Win32Code → Error
  unfolding error_kind_from_win32 io_error_from_winhttp
  from_win32 code = record {
    kind = error_kind_from_win32 code;
    source = some (io_error_from_winhttp code);
    status = none;
    url = none;
  }
