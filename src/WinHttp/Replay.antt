-- ===== src/WinHttp/Replay.antt =====
-- src/winhttp.rs: the sending of the request and the wait for the response, with the replay after a
-- challenge for a client certificate.
pub mod Once
use wrest.Body.{Body, BodyInner, bytes, stream}
use wrest.Error.{Error, ErrorKind, Source, io_error, Win32Code, IoErrorKind}
use wrest.Prelude.Result.{Result, ok, err, to_option}
use wrest.Prelude.Text.{Text, codes, text_eq}
use wrest.Prelude.{
  ℕ, zero, suc, Bool, true, false, ◌&&◌, ◌||◌, not, List, [], ◌∷◌, Option, none, some,
  if◌then◌else◌, leb, length, is_none,
}
use wrest.Url.Parse.{UriLib, parse_impl}
use wrest.Url.Types.{Url}
use wrest.WinHttp.Send.{send_stream, send_large, send_inline, large_body_threshold}
use wrest.WinHttp.Transport.{Op, Winhttp, pure, fail, went_on, ◌>>=◌, ◌>>◌, at_url}

pub record CertlessRedirectRetry : Type 0 where
  pub replay_safe : Bool
  pub attempted : Bool

unfoldable pub new_retry : Url → Text → Option Body → CertlessRedirectRetry
new_retry initial_url method body = record {
  replay_safe = not initial_url.is_https && text_eq method (codes "GET") && is_none body;
  attempted = false;
}

abbrev is_cert_code : Win32Code → Bool
is_cert_code Win32Code.client_auth_cert_needed = true
is_cert_code _ = false

-- The test of the error's own source, which the chain below it is not asked.
abbrev is_cert_source : Option Source → Bool
is_cert_source (some (io_error _ (some code))) = is_cert_code code
is_cert_source _ = false

abbrev is_connect : ErrorKind → Bool
is_connect ErrorKind.connect = true
is_connect _ = false

unfoldable pub is_client_cert_needed : Error → Bool
is_client_cert_needed e = is_connect e.kind && is_cert_source e.source

-- The state of the replay, what is left of the request, and the result.
abbrev pub Tried : Type 0 → Type 0
Tried W = CertlessRedirectRetry × (W × Result Error (Unit {0}))

-- A response can fail once before the replay and once after it.
abbrev pub receive_fuel : ℕ
receive_fuel = 2

module _ {W : Type 0} (uri : UriLib) (abi : Winhttp W) (url : Url) where
  -- The current URL can be read and parsed and is an https URL.
  unfoldable pub current_is_https : W → Bool
  current_is_https w = elim (abi.query_option_url w) [
    | none ↦ false
    | some current ↦ elim (parse_impl uri current) [ err _ ↦ false | ok u ↦ u.is_https ]
  ]

  unfoldable pub on_error : CertlessRedirectRetry → Error → W → Tried W
  unfolding is_client_cert_needed current_is_https
  on_error r e w =
      if not r.replay_safe || r.attempted || not (is_client_cert_needed e)
      then (r, (w, err e))
      else if abi.is_aborted w || not (current_is_https w)
      then (r, (w, err e))
      else (
        record r { attempted = true },
        (at_url url abi.set_no_client_cert >> abi.send_request [] 0) w,
      )

  -- An error of an operation goes to `on_error`.
  unfoldable pub or_replay : CertlessRedirectRetry → W × Result Error (Unit {0}) → Tried W
  unfolding on_error
  or_replay r (w, ok _) = (r, (w, ok tt))
  or_replay r (w, err e) = on_error r e w

  -- The three body paths.
  unfoldable pub send_body : CertlessRedirectRetry → Option Body → W → Tried W
  unfolding send_stream send_large send_inline or_replay
  send_body r none w = or_replay r (send_inline abi [] w)
  send_body r (some body) w = elim body.inner [
    | stream items ↦ (r, send_stream abi url items w)
    | bytes v ↦
        if leb (length v) large_body_threshold
        then or_replay r (send_inline abi v w)
        else (r, send_large abi url v w)
  ]

  -- The receive loop; `none` is a loop that has not ended with the fuel.
  unfoldable pub receive_loop :
      ℕ → CertlessRedirectRetry → W → CertlessRedirectRetry × (W × Option (Result Error (Unit {0})))
  unfolding on_error
  receive_loop zero r w = (r, (w, none))
  receive_loop (suc fuel) r w =
      let received = abi.receive_response w in
      elim received.1 [
        | ok _ ↦ (r, (received.0, some (ok tt)))
        | err e ↦
            let (r', (w', replayed)) = on_error r e received.0 in
            let again = receive_loop fuel r' w' in
            elim replayed [ err e' ↦ (r', (w', some (err e'))) | ok _ ↦ again ]
      ]

  -- From the first send to the response.
  unfoldable pub transmit :
      CertlessRedirectRetry → Option Body → W → W × Option (Result Error (Unit {0}))
  unfolding send_body receive_loop
  transmit r body w =
      let (r', (w', sent)) = send_body r body w in
      elim sent [ err e ↦ (w', some (err e)) | ok _ ↦ (receive_loop receive_fuel r' w').1 ]
