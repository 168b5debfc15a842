-- ===== src/Tests/Transport.antt =====
-- The transport's callbacks, sending and replies at concrete inputs: a request that keeps what was
-- written, the number of sends, and whether it fails for want of a certificate.
use mathlib.Core.List.{append-nil}
use wrest.Body.{Body}
use wrest.Callback.{new_signal, listen, poll}
use wrest.Error.{
  Error, ErrorKind, Source, io_error, uncategorized, Win32Code, IoErrorKind, message, with_kind,
  with_url, internal_error,
}
use wrest.Prelude.Result.{Result, ok, err}
use wrest.Prelude.Text.{Text, codes, text_eq}
use wrest.Prelude.{
  ℕ, zero, suc, ◌+◌, ◌-◌, ◌<◌, ◌≤◌, Bool, true, false, ◌&&◌, not, List, [], ◌∷◌, ◌++◌, Option, none,
  some, ◌≡◌, refl, arith, if◌then◌else◌, is_some, is_none, leb, ltb, ◌==◌, length, map, ◌↔◌,
}
use wrest.Tests.Callback.{status_lists}
use wrest.Tests.Samples.{entry_headers, one_iri}
use wrest.Tests.Url.{sample_url}
use wrest.WinHttp.Close.{new_close_state}
use wrest.WinHttp.Dispatch.Aborts.{redirect_abort-surfaces}
use wrest.WinHttp.Dispatch.Delivers.{callbacks-resolve, first_event}
use wrest.WinHttp.Dispatch.{
  CallbackStatus, Info, Shared, no_flags, redirect, request_error, secure_failure, handle_closing,
  run_callbacks,
}
use wrest.WinHttp.Events.{CallbackEvent, win32_error, into_result}
use wrest.WinHttp.Redirect.{RequestState, not_aborted, from_url}
use wrest.WinHttp.Replay.Once.{transmit-ends, transmit-once}
use wrest.WinHttp.Replay.{CertlessRedirectRetry, new_retry, transmit}
use wrest.WinHttp.Reply.Headers.{
  parse_raw_headers-header_block, header_block, header_line, IsField, no_field, field, values,
}
use wrest.WinHttp.Reply.{parse_raw_headers}
use wrest.WinHttp.Send.Chunked.{send_stream-Wrote, all_ok, items_bytes, Wrote}
use wrest.WinHttp.Send.Pieces.{send_large-writes}
use wrest.WinHttp.Send.{send_stream, send_large}
use wrest.WinHttp.Transport.{Winhttp, Op}

-- Callbacks of a request whose header names nobody removes.
abbrev keep : Text → Text → Result Error Text
keep h name = ok h

abbrev fresh_request : RequestState
fresh_request = record {
  current_origin = from_url sample_url;
  callback_abort = not_aborted;
  close_calls = 0;
}

abbrev shared : Shared (status_lists CallbackEvent) Text
shared = record {
  signal = new_signal (status_lists CallbackEvent) [];
  tls_failure_flags = no_flags;
  close_state = new_close_state;
  request = fresh_request;
  strong = 2;
  handle = [];
}

abbrev unparsable : Error
unparsable = with_kind ErrorKind.request (message (codes "no URL"))

abbrev no_info : Info
no_info = record {
  is_null = true;
  length = 0;
  word = 0;
  flags = no_flags;
  dw_error = internal_error;
  target = err unparsable;
}

abbrev failing : List (CallbackStatus × Info)
failing = (secure_failure, no_info) ∷ (request_error, no_info) ∷ (handle_closing, no_info) ∷ []

callbacks-resolve_example :
    poll
      (status_lists CallbackEvent)
      (run_callbacks
        (status_lists CallbackEvent)
        Text
        keep
        failing
        (record shared { signal = (listen (status_lists CallbackEvent) shared.signal).0 })).signal
      (listen (status_lists CallbackEvent) shared.signal).1
    ≡ first_event failing
callbacks-resolve_example =
    callbacks-resolve (status_lists CallbackEvent) Text keep failing shared tt

abbrev kind_of : Win32Code → IoErrorKind
kind_of _ = uncategorized

abbrev number_of : Win32Code → ℕ
number_of _ = 0

redirect_abort-surfaces_example :
    let t =
      run_callbacks (status_lists CallbackEvent) Text keep ((redirect, no_info) ∷ failing) shared in
    ((into_result kind_of number_of
        (win32_error internal_error)
        t.request
        t.tls_failure_flags
        sample_url).1
      ≡ err (with_url unparsable sample_url))
    × (t.request.close_calls ≡ suc shared.request.close_calls)
redirect_abort-surfaces_example =
    redirect_abort-surfaces (status_lists CallbackEvent) Text keep kind_of number_of no_info failing
      shared unparsable internal_error sample_url refl refl

-- A request that is only recorded.
record Recorded : Type 0 where
  written : List ℕ
  heads : ℕ
  fails : Bool

abbrev cert_needed : Error
cert_needed = record {
  kind = ErrorKind.connect;
  source = some (io_error uncategorized (some Win32Code.client_auth_cert_needed));
  status = none;
  url = none;
}

abbrev does_nothing : Op Recorded (Unit {0})
does_nothing w = (w, ok tt)

abbrev writes_out : List ℕ → Op Recorded (Unit {0})
writes_out found w = (record w { written = w.written ++ found }, ok tt)

abbrev receives_one : Op Recorded (Unit {0})
receives_one w = (w, if w.fails then err cert_needed else ok tt)

abbrev recorded : Winhttp Recorded
recorded = record {
  connect = λ host port. does_nothing;
  open_request = λ method path secure. does_nothing;
  set_context_value = does_nothing;
  set_proxy_direct = does_nothing;
  set_proxy_named = λ proxy. does_nothing;
  set_proxy_credentials = λ user password. does_nothing;
  set_no_client_cert = λ w. (record w { fails = false }, ok tt);
  set_security_flags = does_nothing;
  add_request_header = λ line. does_nothing;
  send_request =
      λ found n w. (record w { heads = suc w.heads; written = w.written ++ found }, ok tt);
  write_data = writes_out;
  receive_response = receives_one;
  is_aborted = λ w. false;
  query_option_url = λ w. none;
}

abbrev idle : Recorded
idle = record { written = []; heads = 0; fails = true }

abbrev chunks : List (Result Source (List ℕ))
chunks = ok (codes "ab") ∷ ok [] ∷ ok (codes "c") ∷ []

adds_buffer :
    (found : List ℕ) (w : Recorded)
    → (recorded.write_data found w).1 ≡ ok tt
    → (recorded.write_data found w).0.written ≡ w.written ++ found
adds_buffer found w went = refl

head_is_no_body : (w : Recorded) → (recorded.send_request [] 0 w).0.written ≡ w.written
head_is_no_body w = append-nil w.written

sent_chunks : (send_stream recorded sample_url chunks idle).1 ≡ ok tt
unfolding send_stream
sent_chunks = refl

send_stream-Wrote_example :
    (all_ok chunks ≡ true)
    × Wrote recorded
        (λ w. w.written)
        adds_buffer
        sample_url
        idle
        (send_stream recorded sample_url chunks idle).0
        (items_bytes chunks)
send_stream-Wrote_example =
    send_stream-Wrote recorded (λ w. w.written) adds_buffer sample_url (λ line w. refl)
      head_is_no_body chunks idle sent_chunks

sent_large : (send_large recorded sample_url (codes "abc") idle).1 ≡ ok tt
unfolding send_large
sent_large = refl

send_large-writes_example :
    (send_large recorded sample_url (codes "abc") idle).0.written ≡ idle.written ++ codes "abc"
send_large-writes_example =
    send_large-writes recorded (λ w. w.written) (λ found w some_bytes fits went. refl)
      (λ line w. refl) head_is_no_body sample_url (codes "abc") idle sent_large

abbrev get_retry : CertlessRedirectRetry
get_retry = record { replay_safe = true; attempted = false }

transmit-ends_example : is_some (transmit one_iri recorded sample_url get_retry none idle).1 ≡ true
transmit-ends_example = transmit-ends one_iri recorded sample_url get_retry none idle

abbrev no_body : Option Body
no_body = none

transmit-once_example :
    let again : Bool =
      not sample_url.is_https && text_eq (codes "POST") (codes "GET") && is_none no_body in
    (transmit one_iri recorded sample_url
      (new_retry sample_url (codes "POST") no_body)
      no_body
      idle).0.heads
    ≤ idle.heads + 1 + (if again then 1 else 0)
transmit-once_example =
    transmit-once one_iri recorded sample_url (λ w. w.heads) (λ found n w. refl) (λ line w. refl)
      (λ found w. refl) (λ w. refl) (λ w. refl) sample_url (codes "POST") no_body idle

abbrev sample_field : Text × Text
sample_field = (codes "etag", codes "x1")

abbrev status_line : Text
status_line = codes "HTTP/1.1 200 OK"

sample_field-IsField : IsField entry_headers sample_field (codes "etag") (codes "x1")
unfolding wrest.Prelude.Text.contains wrest.Prelude.Text.trim_end_matches
    wrest.Prelude.Text.trim_start_matches wrest.Prelude.Text.is_whitespace wrest.Prelude.Text.lower
    wrest.Prelude.Text.strip_prefix
sample_field-IsField = record {
  no_colon = refl;
  trimmed_name = refl;
  trimmed_value = refl;
  is_name = refl;
  is_value = refl;
  one_line = refl;
  no_status = refl;
}

status_plain : wrest.Prelude.Text.contains 10 status_line ≡ false
unfolding wrest.Prelude.Text.contains
status_plain = refl

status_starts : wrest.Prelude.Text.starts_with (codes "HTTP/") status_line ≡ true
unfolding wrest.Prelude.Text.strip_prefix
status_starts = refl

parse_raw_headers-header_block_example :
    entry_headers.get_all
      (parse_raw_headers entry_headers
        (header_block (status_line ∷ map header_line (sample_field ∷ []))))
      (codes "etag")
    ≡ values entry_headers (codes "etag") ((codes "etag", codes "x1") ∷ [])
parse_raw_headers-header_block_example =
    parse_raw_headers-header_block entry_headers status_line status_plain status_starts
      (field sample_field-IsField no_field) (codes "etag")
