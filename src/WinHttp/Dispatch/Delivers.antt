-- ===== src/WinHttp/Dispatch/Delivers.antt =====
-- src/winhttp.rs: what the callbacks of a request deliver, and what they leave of its state.
use wrest.Callback.Context.{clone_arc_from_raw, drop_raw}
use wrest.Callback.Events.{IsArmed, poll-listen, resolution}
use wrest.Callback.{
  OneshotLib, CompletionSignal, Poll, pending, ready, listen, poll, Event, signals, after_event,
  after_events, SignalCancelled,
}
use wrest.Error.{Error, internal_error}
use wrest.Prelude.Result.{Result, ok}
use wrest.Prelude.Text.{Text}
use wrest.Prelude.{
  ℕ, Bool, true, false, ◌||◌, ◌-◌, not, ◌==◌, suc, if◌then◌else◌, List, [], ◌∷◌, Option, none, some,
  ◌≡◌, refl, ◌∙◌, ap, arith,
}
use wrest.WinHttp.Close.{RequestCloseState, enter_callback, exit_callback, mark_final_callback_seen}
use wrest.WinHttp.Dispatch.{
  CallbackStatus, handle_closing, sendrequest_complete, headers_available, status_read_complete,
  status_write_complete, request_error, secure_failure, redirect, other_status, Info, has_bytes,
  Shared, callback_arm, guarded_callback, final_callback, winhttp_callback_body, run_callbacks,
}
use wrest.WinHttp.Events.{CallbackEvent, complete, read_complete, write_complete, win32_error}

-- The event of a callback. A completion that carries less than it should is still delivered, and so is
-- an error.
abbrev pub event_of : CallbackStatus → Info → Option CallbackEvent
event_of sendrequest_complete info = some complete
event_of headers_available info = some complete
event_of status_read_complete info = some (read_complete info.length)
event_of status_write_complete info =
    some (write_complete (if has_bytes info 4 then info.word else 0))
event_of request_error info =
    some (win32_error (if has_bytes info 16 then info.dw_error else internal_error))
event_of handle_closing info = none
event_of secure_failure info = none
event_of redirect info = none
event_of other_status info = none

abbrev pub first_event : List (CallbackStatus × Info) → Poll (Result SignalCancelled CallbackEvent)
first_event [] = pending
first_event ((status, info) ∷ cs) =
    let rest = first_event cs in
    elim (event_of status info) [ some event ↦ ready (ok event) | none ↦ rest ]

abbrev pub closings : List (CallbackStatus × Info) → ℕ
closings [] = 0
closings ((handle_closing, info) ∷ cs) = suc (closings cs)
closings ((status, info) ∷ cs) = closings cs

abbrev pub is_closing : CallbackStatus → Bool
is_closing handle_closing = true
is_closing _ = false

enter-exit : (c : RequestCloseState) → (exit_callback (enter_callback c).0).0 ≡ c
unfolding enter_callback exit_callback
enter-exit c = ground arith

module _ (lib : OneshotLib CallbackEvent) (Handle : Type 0)
    (remove_header : Handle → Text → Result Error Handle) where
  abbrev events_of : List (CallbackStatus × Info) → List (Event lib)
  events_of [] = []
  events_of ((status, info) ∷ cs) =
      let rest = events_of cs in
      elim (event_of status info) [ some event ↦ signals event ∷ rest | none ↦ rest ]

  signal-run_callbacks :
      (cs : List (CallbackStatus × Info)) (s : Shared lib Handle)
      → (run_callbacks lib Handle remove_header cs s).signal
        ≡ after_events lib s.signal (events_of cs)
  unfolding run_callbacks winhttp_callback_body guarded_callback final_callback callback_arm
      after_events after_event
  signal-run_callbacks [] s = refl
  signal-run_callbacks ((handle_closing, info) ∷ cs) s = signal-run_callbacks cs _
  signal-run_callbacks ((sendrequest_complete, info) ∷ cs) s = signal-run_callbacks cs _
  signal-run_callbacks ((headers_available, info) ∷ cs) s = signal-run_callbacks cs _
  signal-run_callbacks ((status_read_complete, info) ∷ cs) s = signal-run_callbacks cs _
  signal-run_callbacks ((status_write_complete, info) ∷ cs) s = signal-run_callbacks cs _
  signal-run_callbacks ((request_error, info) ∷ cs) s = signal-run_callbacks cs _
  signal-run_callbacks ((secure_failure, info) ∷ cs) s = signal-run_callbacks cs _
  signal-run_callbacks ((redirect, info) ∷ cs) s = signal-run_callbacks cs _
  signal-run_callbacks ((other_status, info) ∷ cs) s = signal-run_callbacks cs _

  resolution-events_of :
      (cs : List (CallbackStatus × Info)) → resolution lib (events_of cs) ≡ first_event cs
  resolution-events_of [] = refl
  resolution-events_of ((handle_closing, info) ∷ cs) = resolution-events_of cs
  resolution-events_of ((sendrequest_complete, info) ∷ cs) = refl
  resolution-events_of ((headers_available, info) ∷ cs) = refl
  resolution-events_of ((status_read_complete, info) ∷ cs) = refl
  resolution-events_of ((status_write_complete, info) ∷ cs) = refl
  resolution-events_of ((request_error, info) ∷ cs) = refl
  resolution-events_of ((secure_failure, info) ∷ cs) = resolution-events_of cs
  resolution-events_of ((redirect, info) ∷ cs) = resolution-events_of cs
  resolution-events_of ((other_status, info) ∷ cs) = resolution-events_of cs

  -- A future that was made before any callbacks is resolved with the event of the first of them that
  -- completes or fails the operation, with the count or the code that it carries. A write that reports
  -- too little counts as no bytes, and an error that reports too little as an internal error; neither
  -- leaves the future pending. TLS details, redirects, other statuses and the closing of the handle
  -- resolve nothing.
  pub callbacks-resolve :
      (cs : List (CallbackStatus × Info)) (s : Shared lib Handle)
      → IsArmed lib s.signal
      → poll lib
          (run_callbacks lib Handle remove_header cs
            (record s { signal = (listen lib s.signal).0 })).signal
          (listen lib s.signal).1
        ≡ first_event cs
  callbacks-resolve cs s armed =
      ap (λ (t : CompletionSignal lib). poll lib t (listen lib s.signal).1)
        (signal-run_callbacks cs (record s { signal = (listen lib s.signal).0 }))
      ∙ poll-listen lib s.signal (events_of cs) armed
      ∙ resolution-events_of cs

  guarded-close_state :
      (status : CallbackStatus) (info : Info) (s : Shared lib Handle)
      → (guarded_callback lib Handle remove_header status info s).close_state ≡ s.close_state
  unfolding guarded_callback callback_arm
  guarded-close_state handle_closing info s = enter-exit s.close_state
  guarded-close_state sendrequest_complete info s = enter-exit s.close_state
  guarded-close_state headers_available info s = enter-exit s.close_state
  guarded-close_state status_read_complete info s = enter-exit s.close_state
  guarded-close_state status_write_complete info s = enter-exit s.close_state
  guarded-close_state request_error info s = enter-exit s.close_state
  guarded-close_state secure_failure info s = enter-exit s.close_state
  guarded-close_state redirect info s = enter-exit s.close_state
  guarded-close_state other_status info s = enter-exit s.close_state

  guarded-strong :
      (status : CallbackStatus) (info : Info) (s : Shared lib Handle)
      → (guarded_callback lib Handle remove_header status info s).strong ≡ s.strong
  unfolding guarded_callback callback_arm
  guarded-strong handle_closing info s = refl
  guarded-strong sendrequest_complete info s = refl
  guarded-strong headers_available info s = refl
  guarded-strong status_read_complete info s = refl
  guarded-strong status_write_complete info s = refl
  guarded-strong request_error info s = refl
  guarded-strong secure_failure info s = refl
  guarded-strong redirect info s = refl
  guarded-strong other_status info s = refl

  -- What some callbacks leave of the counts, by the number of final ones among them.
  abbrev pub Accounts : ℕ → Shared lib Handle → Shared lib Handle → Type 0
  Accounts n s t =
      (t.strong ≡ s.strong - n)
      × (t.close_state.active_callbacks ≡ s.close_state.active_callbacks)
      × (t.close_state.closed ≡ (s.close_state.closed || not (n == 0)))

  guarded-Accounts :
      (status : CallbackStatus) (info : Info) (s : Shared lib Handle)
      → Accounts 0 s (guarded_callback lib Handle remove_header status info s)
  guarded-Accounts status info s =
      let same = guarded-close_state status info s in
      let kept = guarded-strong status info s in
      (omega arith, ap (λ (c : RequestCloseState). c.active_callbacks) same, ground arith)

  callback-Accounts :
      (status : CallbackStatus) (info : Info) (s : Shared lib Handle)
      → Accounts
          (if is_closing status then 1 else 0)
          s
          (winhttp_callback_body lib Handle remove_header status info s)
  unfolding winhttp_callback_body final_callback mark_final_callback_seen clone_arc_from_raw
      drop_raw
  callback-Accounts handle_closing info s = (omega arith, refl, ground arith)
  callback-Accounts sendrequest_complete info s = guarded-Accounts sendrequest_complete info s
  callback-Accounts headers_available info s = guarded-Accounts headers_available info s
  callback-Accounts status_read_complete info s = guarded-Accounts status_read_complete info s
  callback-Accounts status_write_complete info s = guarded-Accounts status_write_complete info s
  callback-Accounts request_error info s = guarded-Accounts request_error info s
  callback-Accounts secure_failure info s = guarded-Accounts secure_failure info s
  callback-Accounts redirect info s = guarded-Accounts redirect info s
  callback-Accounts other_status info s = guarded-Accounts other_status info s

  -- However many callbacks run, each that was entered is left again; the `Arc` that WinHTTP retains is
  -- released once for each final callback and by no other, and the request counts as closed from the
  -- first final one on.
  run_callbacks-Accounts :
      (cs : List (CallbackStatus × Info)) (s : Shared lib Handle)
      → Accounts (closings cs) s (run_callbacks lib Handle remove_header cs s)
  unfolding run_callbacks
  run_callbacks-Accounts [] s = (omega arith, refl, ground arith)
  run_callbacks-Accounts ((status, info) ∷ cs) s =
      let (strong, active, closed) = callback-Accounts status info s in
      let t = winhttp_callback_body lib Handle remove_header status info s in
      let (strong', active', closed') = run_callbacks-Accounts cs t in
      (ground arith, active' ∙ active, ground arith)
