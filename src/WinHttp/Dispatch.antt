-- ===== src/WinHttp/Dispatch.antt =====
-- src/winhttp.rs: `winhttp_callback_body`, the status callback of a request. What a pointer of the system
-- refers to is part of the input, and on the 64-bit target a `WINHTTP_ASYNC_RESULT` has 16 bytes.
pub mod Aborts
pub mod Delivers
use wrest.Callback.Context.{clone_arc_from_raw, drop_raw, drop_arc}
use wrest.Callback.{OneshotLib, CompletionSignal, signal}
use wrest.Error.{Error, Win32Code, internal_error}
use wrest.Prelude.Result.{Result, ok, err}
use wrest.Prelude.Text.{Text}
use wrest.Prelude.{ℕ, Bool, true, false, ◌&&◌, not, if◌then◌else◌, leb, List, [], ◌∷◌}
use wrest.Url.Types.{Url}
use wrest.WinHttp.Close.{RequestCloseState, enter_callback, exit_callback, mark_final_callback_seen}
use wrest.WinHttp.Events.{
  CallbackEvent, complete, read_complete, write_complete, win32_error, TlsFlags,
}
use wrest.WinHttp.Redirect.{RequestState, on_redirect}

-- The statuses that the callback tells apart.
pub data CallbackStatus : Type 0 where
  handle_closing sendrequest_complete headers_available : CallbackStatus
  status_read_complete status_write_complete : CallbackStatus
  request_error secure_failure redirect other_status : CallbackStatus

-- `lpv_info` and `dw_info_length`, with what the pointer refers to, read as each status reads it. The
-- target of a redirect is what `wide_to_string` and the parsing of its text as a URL give.
pub record Info : Type 0 where
  pub is_null : Bool
  pub length : ℕ
  pub word : ℕ
  pub flags : TlsFlags
  pub dw_error : Win32Code
  pub target : Result Error Url

abbrev pub has_bytes : Info → ℕ → Bool
has_bytes info size = not info.is_null && leb size info.length

abbrev pub no_flags : TlsFlags
no_flags _ = false

module _ (lib : OneshotLib CallbackEvent) (Handle : Type 0) where
  -- The state of a request that its callbacks share, with the strong count of its `Arc` and what WinHTTP
  -- keeps for the request.
  pub record Shared : Type 0 where
    pub signal : CompletionSignal lib
    pub tls_failure_flags : TlsFlags
    pub close_state : RequestCloseState
    pub request : RequestState
    pub strong : ℕ
    pub handle : Handle

  abbrev deliver : Shared → CallbackEvent → Shared
  deliver s event = record s { signal = signal lib s.signal event }

  module _ (remove_header : Handle → Text → Result Error Handle) where
    -- The `match` on the status.
    unfoldable pub callback_arm : CallbackStatus → Info → Shared → Shared
    callback_arm sendrequest_complete info s = deliver s complete
    callback_arm headers_available info s = deliver s complete
    callback_arm status_read_complete info s = deliver s (read_complete info.length)
    callback_arm status_write_complete info s =
        deliver s (write_complete (if has_bytes info 4 then info.word else 0))
    callback_arm request_error info s =
        deliver s (win32_error (if has_bytes info 16 then info.dw_error else internal_error))
    callback_arm secure_failure info s = record s {
      tls_failure_flags = if has_bytes info 4 then info.flags else no_flags;
    }
    callback_arm redirect info s =
        let (request, handle) = on_redirect remove_header s.request s.handle info.target in
        record s { request = request; handle = handle }
    callback_arm handle_closing info s = s
    callback_arm other_status info s = s

    -- The early return for the final callback, with the temporary `Arc` dropped at its end.
    unfoldable pub final_callback : Shared → Shared
    final_callback s = record s {
      strong = drop_arc (drop_raw (clone_arc_from_raw s.strong));
      close_state = (mark_final_callback_seen s.close_state).0;
    }

    -- The other callbacks, between the guard's creation and its drop.
    unfoldable pub guarded_callback : CallbackStatus → Info → Shared → Shared
    unfolding callback_arm
    guarded_callback status info s =
        let entered = record s { close_state = (enter_callback s.close_state).0 } in
        let done = callback_arm status info entered in
        record done { close_state = (exit_callback done.close_state).0 }

    unfoldable pub winhttp_callback_body : CallbackStatus → Info → Shared → Shared
    unfolding guarded_callback final_callback
    winhttp_callback_body handle_closing info s = final_callback s
    winhttp_callback_body status info s = guarded_callback status info s

    -- The callbacks of a request, in order.
    unfoldable pub run_callbacks : List (CallbackStatus × Info) → Shared → Shared
    run_callbacks [] s = s
    run_callbacks ((status, info) ∷ cs) s = run_callbacks cs (winhttp_callback_body status info s)
