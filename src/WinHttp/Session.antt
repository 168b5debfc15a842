-- ===== src/WinHttp/Session.antt =====
-- src/winhttp.rs: `WinHttpSession::open`, over the wrappers of src/abi. What WinHTTP keeps for a session is
-- a parameter; a name stands for each option and each flag of `windows-sys`.
use wrest.Error.{Error}
use wrest.Prelude.Result.{Result, ok}
use wrest.Prelude.Text.{Text}
use wrest.Prelude.{ℕ, Bool, Option, none, some, if◌then◌else◌}
use wrest.Proxy.{ProxyAction, direct, named, automatic}
use wrest.RedirectPolicy.{Policy, limited_to, no_redirects}
use wrest.WinHttp.Transport.{Op, pure, ◌>>◌}

-- Milliseconds; 0 is no timeout.
pub record SessionConfig : Type 0 where
  pub user_agent : Text
  pub connect_timeout_ms : ℕ
  pub send_timeout_ms : ℕ
  pub read_timeout_ms : ℕ
  pub verbose : Bool
  pub max_connections_per_host : Option ℕ
  pub proxy : ProxyAction
  pub redirect_policy : Option Policy
  pub http1_only : Bool

pub data AccessType : Type 0 where
  no_proxy named_proxy automatic_proxy : AccessType

pub data SessionOption : Type 0 where
  enable_http2 decompress_gzip_deflate assured_non_blocking_callbacks : SessionOption
  max_conns_per_server max_http_automatic_redirects : ℕ → SessionOption
  redirect_policy_never : SessionOption

unfoldable pub access_of : ProxyAction → AccessType × Option Text
access_of direct = (no_proxy, none)
access_of (named url _) = (named_proxy, some url)
access_of automatic = (automatic_proxy, none)

-- The wrappers that `open` calls.
pub record SessionLib (W : Type 0) : Type 0 where
  pub open_session : Text → AccessType → Option Text → Op W (Unit {0})
  pub set_status_callback : Op W (Unit {0})
  pub set_timeouts : ℕ → ℕ → ℕ → ℕ → Op W (Unit {0})
  pub set_option : SessionOption → Op W (Unit {0})

module _ {W : Type 0} where
  -- `let _ = …`: the result is dropped.
  abbrev pub dropped : W × Result Error (Unit {0}) → W × Result Error (Unit {0})
  dropped (w, _) = (w, ok tt)

  abbrev pub ignored : Op W (Unit {0}) → Op W (Unit {0})
  ignored op w = dropped (op w)

  module _ (abi : SessionLib W) where
    unfoldable pub set_max_connections : Option ℕ → Op W (Unit {0})
    set_max_connections none = pure tt
    set_max_connections (some max_conns) = abi.set_option (max_conns_per_server max_conns)

    -- The `match` on the redirect policy.
    unfoldable pub set_redirect_policy : Option Policy → Op W (Unit {0})
    set_redirect_policy none = abi.set_option (max_http_automatic_redirects 10)
    set_redirect_policy (some policy) = elim policy.inner [
      | no_redirects ↦ abi.set_option redirect_policy_never
      | limited_to max ↦ abi.set_option (max_http_automatic_redirects max)
    ]

    -- `WinHttpSession::open`
    unfoldable pub open_with : SessionConfig → Op W (Unit {0})
    unfolding access_of set_max_connections set_redirect_policy
    open_with config = do
      abi.open_session config.user_agent (access_of config.proxy).0 (access_of config.proxy).1
      abi.set_status_callback
      abi.set_timeouts 0 config.connect_timeout_ms config.send_timeout_ms config.read_timeout_ms
      (if config.http1_only then pure tt else ignored (abi.set_option enable_http2))
      ignored (abi.set_option decompress_gzip_deflate)
      abi.set_option assured_non_blocking_callbacks
      set_max_connections config.max_connections_per_host
      set_redirect_policy config.redirect_policy
