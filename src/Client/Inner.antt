-- ===== src/Client/Inner.antt =====
-- src/client.rs: `execute_inner`, one attempt with its deadline, and the https downgrade check.
use wrest.Error.{Error, ErrorKind, message, with_kind, with_url}
use wrest.Http.{HeaderMapLib, get}
use wrest.Body.{Body}
use wrest.Prelude.Result.{Result, ok, err, ◌>>=◌, to_option}
use wrest.Prelude.Text.{codes}
use wrest.Prelude.{
  ℕ, Bool, false, ◌&&◌, ◌||◌, not, ◌-◌, Option, none, some, if◌then◌else◌, leb, ◌==◌,
}
use wrest.Response.Types.{RawResponse, Response, is_redirection, from_raw}
use wrest.Url.Join.{join}
use wrest.Url.Parse.{UriLib}
use wrest.Url.Types.{Url}

-- The fields of `ClientInner` that an attempt reads itself. The session, the proxy configuration and
-- the certificate flag go to the transport.
pub record Limits : Type 0 where
  pub https_only : Bool
  pub redirect_follows : Bool

-- What one attempt meets: the clock when it starts, what `winhttp::execute_request` returns for the
-- body that is sent, and the clock of the poll that finds it; `fired` is the clock of the poll that finds
-- the timer fired. A timer fires late, and one that could not be created never fires.
pub record Encounter (HeaderMap : Type 0) : Type 0 where
  pub start : ℕ
  pub reply : Option Body → Result Error (RawResponse HeaderMap)
  pub reply_time : ℕ
  pub fired : Option ℕ

abbrev pub timeout_error : Url → Error
timeout_error url =
    with_url (with_kind ErrorKind.timeout (message (codes "total request timeout elapsed"))) url

abbrev pub scheme_error : Url → Error
scheme_error url =
    with_url (with_kind ErrorKind.builder (message (codes "URL scheme is not allowed"))) url

abbrev pub downgrade_error : Url → Error
downgrade_error url =
    with_url
      (with_kind ErrorKind.redirect
        (message (codes "https->http redirect blocked by redirect policy")))
      url

module _ (http : HeaderMapLib) (uri : UriLib) where
  open http use {HeaderMap}

  -- `headers.get(LOCATION)?.to_str().ok()?`, then `url.join(location).ok()?`
  unfoldable pub redirect_target : RawResponse HeaderMap → Option Url
  redirect_target raw = elim (get http raw.headers (codes "location")) [
    | none ↦ none
    | some value ↦ elim (http.to_str value) [
      | none ↦ none
      | some location ↦ to_option (join uri raw.url location)
    ]
  ]

  unfoldable pub translate_blocked_https_downgrade : RawResponse HeaderMap → Option Error
  unfolding redirect_target
  translate_blocked_https_downgrade raw =
      if not (is_redirection raw.status) || not raw.url.is_https
      then none
      else elim (redirect_target raw) [
        | none ↦ none
        | some target ↦ if target.is_https then none else some (downgrade_error raw.url)
      ]

  -- The race of the transport with the timer that is set where there is a deadline. `select` polls the
  -- transport first, so that it wins where one poll finds both.
  unfoldable pub race :
      Url → Option ℕ → Encounter HeaderMap → Option Body → Result Error (RawResponse HeaderMap)
  race url none e body = e.reply body
  race url (some _) e body = elim e.fired [
    | none ↦ e.reply body
    | some t ↦ if leb e.reply_time t then e.reply body else err (timeout_error url)
  ]

  -- `remaining_timeout`, and whether it is zero.
  unfoldable pub expired : Option ℕ → ℕ → Bool
  expired none now = false
  expired (some deadline) now = (deadline - now) == 0

  unfoldable pub refuse_downgrade :
      Bool → Option ℕ → RawResponse HeaderMap → Result Error (Response HeaderMap)
  refuse_downgrade follows deadline raw = elim (translate_blocked_https_downgrade raw) [
    | none ↦ ok (from_raw raw deadline)
    | some e ↦ if follows then err e else ok (from_raw raw deadline)
  ]

  unfoldable pub execute_inner :
      Limits
      → Url
      → Option ℕ
      → Encounter HeaderMap
      → Option Body
      → Result Error (Response HeaderMap)
  execute_inner limits url deadline e body =
      if limits.https_only && not url.is_https
      then err (scheme_error url)
      else if expired deadline e.start
      then err (timeout_error url)
      else (race url deadline e body >>= refuse_downgrade limits.redirect_follows deadline)
