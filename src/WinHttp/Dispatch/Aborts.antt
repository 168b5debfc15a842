-- ===== src/WinHttp/Dispatch/Aborts.antt =====
-- src/winhttp.rs: how an abort that a callback decides on, and the details of a TLS failure, reach the
-- code that awaits the operation.
use mathlib.Core.Path.{subst}
use wrest.Callback.{OneshotLib}
use wrest.Error.{Error, Win32Code, IoErrorKind, with_url}
use wrest.Prelude.Result.{Result, ok, err}
use wrest.Prelude.Text.{Text}
use wrest.Prelude.{
  ℕ, true, false, suc, List, [], ◌∷◌, Option, none, some, ◌≡◌, refl, sym, ap, Bool-cases, inl, inr,
}
use wrest.Url.Types.{Url}
use wrest.WinHttp.Dispatch.{
  CallbackStatus, handle_closing, sendrequest_complete, headers_available, status_read_complete,
  status_write_complete, request_error, secure_failure, redirect, other_status, Info, Shared,
  callback_arm, guarded_callback, final_callback, winhttp_callback_body, run_callbacks,
}
use wrest.WinHttp.Events.{
  CallbackEvent, win32_error, into_result, callback_error_to_error, TlsFlags,
}
use wrest.WinHttp.Redirect.{
  RequestState, CallbackAbort, not_aborted, aborted, is_aborted, take_reason, abort_from_callback,
  on_redirect, strip_on_redirect, finish_strip, strip_all, same_origin, from_url, strip_error,
  sensitive_headers_on_cross_origin,
}

-- An aborted request: what is left of its reason, and how often its handle was closed.
abbrev pub IsAborted : Option Error → ℕ → RequestState → Type 0
IsAborted reason closes state =
    (state.callback_abort ≡ aborted reason) × (state.close_calls ≡ closes)

abort-keeps :
    (state : RequestState) (other : Error)
    → is_aborted state.callback_abort ≡ true
    → abort_from_callback state other ≡ state
unfolding abort_from_callback
abort-keeps state other already = rw already refl

first_abort-IsAborted :
    (state : RequestState) (reason : Error)
    → is_aborted state.callback_abort ≡ false
    → IsAborted (some reason) (suc state.close_calls) (abort_from_callback state reason)
unfolding abort_from_callback
first_abort-IsAborted state reason fresh = rw fresh (refl, refl)

abort-IsAborted :
    (state : RequestState) (reason : Option Error) (closes : ℕ) (other : Error)
    → IsAborted reason closes state
    → IsAborted reason closes (abort_from_callback state other)
unfolding is_aborted
abort-IsAborted state reason closes other (a, c) =
    subst (λ (t : RequestState). IsAborted reason closes t)
      (sym (abort-keeps state other (ap (λ (b : CallbackAbort). is_aborted b) a))) (a, c)

module _ {Handle : Type 0} (remove_header : Handle → Text → Result Error Handle) where
  finish_strip-IsAborted :
      (state : RequestState) (url : Url) (reason : Option Error) (closes : ℕ) (h : Handle)
      (failed : Option (Text × Error))
      → IsAborted reason closes state
      → IsAborted reason closes (finish_strip remove_header state url (h, failed)).0
  unfolding finish_strip
  finish_strip-IsAborted state url reason closes h none a = a
  finish_strip-IsAborted state url reason closes h (some (name, e)) a =
      abort-IsAborted state reason closes (strip_error name url e) a

  strip_on_redirect-IsAborted :
      (state : RequestState) (h : Handle) (url : Url) (reason : Option Error) (closes : ℕ)
      → IsAborted reason closes state
      → IsAborted reason closes (strip_on_redirect remove_header state h url).0
  unfolding strip_on_redirect
  strip_on_redirect-IsAborted state h url reason closes a =
      let stripped = strip_all remove_header sensitive_headers_on_cross_origin h in
      let kept = finish_strip-IsAborted state url reason closes stripped.0 stripped.1 a in
      elim (Bool-cases (same_origin state.current_origin (from_url url))) [
        | inl e ↦ rw e a
        | inr e ↦ rw e kept
      ]

  on_redirect-IsAborted :
      (state : RequestState) (h : Handle) (target : Result Error Url) (reason : Option Error)
      (closes : ℕ)
      → IsAborted reason closes state
      → IsAborted reason closes (on_redirect remove_header state h target).0
  unfolding on_redirect
  on_redirect-IsAborted state h (ok url) reason closes a =
      strip_on_redirect-IsAborted state h url reason closes a
  on_redirect-IsAborted state h (err other) reason closes a =
      abort-IsAborted state reason closes other a

module _ (lib : OneshotLib CallbackEvent) (Handle : Type 0)
    (remove_header : Handle → Text → Result Error Handle) where
  callback-IsAborted :
      (status : CallbackStatus) (info : Info) (s : Shared lib Handle) (reason : Option Error)
      (closes : ℕ)
      → IsAborted reason closes s.request
      → IsAborted reason closes
          (winhttp_callback_body lib Handle remove_header status info s).request
  unfolding winhttp_callback_body guarded_callback callback_arm final_callback
  callback-IsAborted redirect info s reason closes a =
      on_redirect-IsAborted remove_header s.request s.handle info.target reason closes a
  callback-IsAborted handle_closing info s reason closes a = a
  callback-IsAborted sendrequest_complete info s reason closes a = a
  callback-IsAborted headers_available info s reason closes a = a
  callback-IsAborted status_read_complete info s reason closes a = a
  callback-IsAborted status_write_complete info s reason closes a = a
  callback-IsAborted request_error info s reason closes a = a
  callback-IsAborted secure_failure info s reason closes a = a
  callback-IsAborted other_status info s reason closes a = a

  run-IsAborted :
      (cs : List (CallbackStatus × Info)) (s : Shared lib Handle) (reason : Option Error)
      (closes : ℕ)
      → IsAborted reason closes s.request
      → IsAborted reason closes (run_callbacks lib Handle remove_header cs s).request
  unfolding run_callbacks
  run-IsAborted [] s reason closes a = a
  run-IsAborted ((status, info) ∷ cs) s reason closes a =
      run-IsAborted cs _ reason closes (callback-IsAborted status info s reason closes a)

  unparsable-IsAborted :
      (info : Info) (s : Shared lib Handle) (reason : Error)
      → s.request.callback_abort ≡ not_aborted
      → info.target ≡ err reason
      → IsAborted
          (some reason)
          (suc s.request.close_calls)
          (winhttp_callback_body lib Handle remove_header redirect info s).request
  unfolding winhttp_callback_body guarded_callback callback_arm on_redirect is_aborted
  unparsable-IsAborted info s reason fresh bad =
      subst
        (λ (target : Result Error Url).
          IsAborted (some reason) (suc s.request.close_calls)
            (on_redirect remove_header s.request s.handle target).0)
        (sym bad)
        (first_abort-IsAborted s.request reason (ap (λ (b : CallbackAbort). is_aborted b) fresh))

  module _ (decode_error_kind : Win32Code → IoErrorKind) (number : Win32Code → ℕ) where
    aborted-error :
        (state : RequestState) (flags : TlsFlags) (reason : Error) (code : Win32Code) (url : Url)
        → state.callback_abort ≡ aborted (some reason)
        → (into_result decode_error_kind number (win32_error code) state flags url).1
          ≡ err (with_url reason url)
    unfolding into_result callback_error_to_error take_reason
    aborted-error state flags reason code url a = rw (a, take_reason) refl

    -- When the target of a redirect is no URL, the request's handle is closed once, and whatever callbacks
    -- follow and whatever error WinHTTP then reports, the operation that is awaited fails with the reason of
    -- the abort and the request's URL.
    pub redirect_abort-surfaces :
        (info : Info) (cs : List (CallbackStatus × Info)) (s : Shared lib Handle) (reason : Error)
        (code : Win32Code) (url : Url)
        → s.request.callback_abort ≡ not_aborted
        → info.target ≡ err reason
        → let t = run_callbacks lib Handle remove_header ((redirect, info) ∷ cs) s in
          ((into_result decode_error_kind number
              (win32_error code)
              t.request
              t.tls_failure_flags
              url).1
            ≡ err (with_url reason url))
          × (t.request.close_calls ≡ suc s.request.close_calls)
    unfolding run_callbacks
    redirect_abort-surfaces info cs s reason code url fresh bad =
        let (a, c) = run-IsAborted cs _ _ _ (unparsable-IsAborted info s reason fresh bad) in
        (aborted-error _ _ reason code url a, c)
