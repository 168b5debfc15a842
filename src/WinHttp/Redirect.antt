-- ===== src/WinHttp/Redirect.antt =====
-- src/winhttp.rs: the origin that a request is tracked at, the abort from a callback, and the stripping
-- of headers at a redirect. A request handle is what WinHTTP keeps for it: a parameter.
use wrest.Error.{Error, ErrorKind, context, with_kind, Source, foreign, foreign_from}
use wrest.Prelude.Result.{Result, ok, err}
use wrest.Prelude.Text.{Text, codes, text_eq, to_ascii_lowercase}
use wrest.Prelude.{
  ℕ, suc, Bool, true, false, ◌&&◌, ◌++◌, List, [], ◌∷◌, Option, none, some, if◌then◌else◌, ◌==◌,
}
use wrest.Url.Types.{Url}

abbrev pub sensitive_headers_on_cross_origin : List Text
sensitive_headers_on_cross_origin =
    codes "Authorization"
    ∷ codes "Cookie"
    ∷ codes "Cookie2"
    ∷ codes "Proxy-Authorization"
    ∷ codes "Proxy-Authenticate"
    ∷ codes "WWW-Authenticate"
    ∷ []

pub record Origin : Type 0 where
  pub scheme : Text
  pub host : Text
  pub port : ℕ

abbrev pub new_origin : Text → Text → ℕ → Origin
new_origin scheme host port = record {
  scheme = to_ascii_lowercase scheme;
  host = to_ascii_lowercase host;
  port = port;
}

-- `Origin::from_url`
unfoldable pub from_url : Url → Origin
from_url url = new_origin url.scheme url.host url.port

-- The derived `PartialEq`.
unfoldable pub same_origin : Origin → Origin → Bool
same_origin a b = text_eq a.scheme b.scheme && text_eq a.host b.host && a.port == b.port

pub data CallbackAbort : Type 0 where
  not_aborted : CallbackAbort
  aborted : Option Error → CallbackAbort

unfoldable pub is_aborted : CallbackAbort → Bool
is_aborted not_aborted = false
is_aborted (aborted _) = true

-- What is left, and the reason.
unfoldable pub take_reason : CallbackAbort → CallbackAbort × Option Error
take_reason not_aborted = (not_aborted, none)
take_reason (aborted slot) = (aborted none, slot)

-- The fields of `RequestState` that a redirect reads and writes, and how often its handle was closed.
pub record RequestState : Type 0 where
  pub current_origin : Origin
  pub callback_abort : CallbackAbort
  pub close_calls : ℕ

unfoldable pub abort_from_callback : RequestState → Error → RequestState
abort_from_callback state reason = if is_aborted state.callback_abort then state else record state {
  callback_abort = aborted (some reason);
  close_calls = suc state.close_calls;
}

-- An `Error` as the source of another one.
abbrev as_source : Error → Source
as_source e = elim e.source [ none ↦ foreign | some s ↦ foreign_from s ]

abbrev pub strip_error : Text → Url → Error → Error
strip_error name url e = with_kind ErrorKind.request (
    context
      (codes "failed to strip "
        ++ (name
            ++ (codes " on cross-origin redirect to "
                ++ (url.serialized ++ codes "; aborting to avoid sensitive-header leak"))))
      (as_source e))

-- `remove_header` gives the handle afterwards, or its error.
module _ {Handle : Type 0} (remove_header : Handle → Text → Result Error Handle) where
  -- The loop over the names: the handle, and the first name that failed with its error.
  unfoldable pub strip_all : List Text → Handle → Handle × Option (Text × Error)
  strip_all [] h = (h, none)
  strip_all (name ∷ names) h = elim (remove_header h name) [
    | err e ↦ (h, some (name, e))
    | ok h' ↦ strip_all names h'
  ]

  unfoldable pub finish_strip :
      RequestState → Url → Handle × Option (Text × Error) → RequestState × Handle
  finish_strip state url (h, none) = (record state { current_origin = from_url url }, h)
  finish_strip state url (h, some (name, e)) =
      (abort_from_callback state (strip_error name url e), h)

  -- `strip_sensitive_headers_on_cross_origin_redirect_with`
  unfoldable pub strip_on_redirect : RequestState → Handle → Url → RequestState × Handle
  unfolding strip_all finish_strip abort_from_callback
  strip_on_redirect state h url =
      if same_origin state.current_origin (from_url url)
      then (state, h)
      else finish_strip state url (strip_all sensitive_headers_on_cross_origin h)

  -- The arm of the callback for `WINHTTP_CALLBACK_STATUS_REDIRECT`, at the parsed target or the reason
  -- that it is not a URL.
  unfoldable pub on_redirect : RequestState → Handle → Result Error Url → RequestState × Handle
  unfolding strip_on_redirect abort_from_callback
  on_redirect state h (ok url) = strip_on_redirect state h url
  on_redirect state h (err reason) = (abort_from_callback state reason, h)

  -- The redirects of one request, in order.
  unfoldable pub on_redirects :
      RequestState → Handle → List (Result Error Url) → RequestState × Handle
  unfolding on_redirect
  on_redirects state h [] = (state, h)
  on_redirects state h (t ∷ ts) = let r = on_redirect state h t in on_redirects r.0 r.1 ts
