-- ===== src/Client/Builder.antt =====
-- src/client.rs: `ClientBuilder` and `build`. The environment and the conversion of a `User-Agent` are
-- parameters; a `Duration` is a number of nanoseconds.
pub mod Timeouts
use mathlib.Core.Option
use wrest.Client.Inner.{Limits}
use wrest.Error.{Error, ErrorKind, context, foreign, with_kind}
use wrest.Http.{HeaderMapLib}
use wrest.Prelude.Result.{Result, ok, err}
use wrest.Prelude.Text.{Text, codes}
use wrest.Prelude.{
  ℕ, ◌+◌, ◌/◌, Bool, true, false, not, List, [], Option, none, some, if◌then◌else◌, leb, max,
}
use wrest.Proxy.{Proxy, ProxyConfig, ProxyAction, named, automatic, apply_to, from_env, no_config}
use wrest.RedirectPolicy
use wrest.RedirectPolicy.{limited_to, no_redirects}
use wrest.Retry.Budget.{F32}
use wrest.Retry.Policy
use wrest.WinHttp.Session.{SessionConfig, SessionLib, open_with}

abbrev pub i32_max : ℕ
i32_max = 2147483647

-- `div_ceil` by a million, at least 1, and at most `i32::MAX`.
unfoldable pub winhttp_timeout_ms : ℕ → ℕ
winhttp_timeout_ms nanos =
    let millis = max ((nanos + 999999) / 1000000) 1 in
    if leb millis i32_max then millis else i32_max

-- `map_or` of a timeout.
abbrev pub timeout_or : ℕ → Option ℕ → ℕ
timeout_or default_ms none = default_ms
timeout_or default_ms (some d) = winhttp_timeout_ms d

-- `HTTPS_PROXY` or else `HTTP_PROXY` for the session.
unfoldable pub session_proxy : ProxyConfig → ProxyAction
session_proxy c = elim c.https_proxy_url [
  | some url ↦ named url none
  | none ↦ elim c.http_proxy_url [ some url ↦ named url none | none ↦ automatic ]
]

abbrev pub follows : Option RedirectPolicy.Policy → Bool
follows none = true
follows (some policy) = elim policy.inner [ no_redirects ↦ false | limited_to _ ↦ true ]

module _ (HeaderMap : Type 0) (Uri : Type 0) (Float : Type 0) where
  pub record ClientBuilder : Type 0 where
    pub user_agent : Text
    pub timeout : Option ℕ
    pub connect_timeout : Option ℕ
    pub send_timeout : Option ℕ
    pub read_timeout : Option ℕ
    pub verbose : Bool
    pub max_connections_per_host : Option ℕ
    pub proxy_config : Option ProxyConfig
    pub default_headers : HeaderMap
    pub redirect_policy : Option RedirectPolicy.Policy
    pub tls_danger_accept_invalid_certs : Bool
    pub https_only : Bool
    pub http1_only : Bool
    pub error : Option Error
    pub retry_policy : Option (Policy.Builder Uri Float)

  -- `ClientBuilder::new`, at the empty header map.
  unfoldable pub new_builder : HeaderMap → ClientBuilder
  new_builder empty = record {
    user_agent = [];
    timeout = none;
    connect_timeout = none;
    send_timeout = none;
    read_timeout = none;
    verbose = false;
    max_connections_per_host = none;
    proxy_config = none;
    default_headers = empty;
    redirect_policy = none;
    tls_danger_accept_invalid_certs = false;
    https_only = false;
    http1_only = false;
    error = none;
    retry_policy = none;
  }

  unfoldable pub timeout : ClientBuilder → ℕ → ClientBuilder
  timeout b d = record b { timeout = some d }

  unfoldable pub connect_timeout : ClientBuilder → ℕ → ClientBuilder
  connect_timeout b d = record b { connect_timeout = some d }

  unfoldable pub send_timeout : ClientBuilder → ℕ → ClientBuilder
  send_timeout b d = record b { send_timeout = some d }

  unfoldable pub read_timeout : ClientBuilder → ℕ → ClientBuilder
  read_timeout b d = record b { read_timeout = some d }

  unfoldable pub connection_verbose : ClientBuilder → Bool → ClientBuilder
  connection_verbose b verbose = record b { verbose = verbose }

  abbrev user_agent_error : Text → Error
  user_agent_error what = with_kind ErrorKind.builder (context what foreign)

  -- The value as a header with its text, or the failure of either conversion.
  unfoldable pub user_agent : ClientBuilder → Option (Option Text) → ClientBuilder
  user_agent b none = record b { error = some (user_agent_error (codes "invalid user-agent")) }
  user_agent b (some none) = record b {
    error = some (user_agent_error (codes "invalid user-agent value"));
  }
  user_agent b (some (some s)) = record b { user_agent = s }

  unfoldable pub max_connections_per_host : ClientBuilder → ℕ → ClientBuilder
  max_connections_per_host b most = record b { max_connections_per_host = some most }

  unfoldable pub default_headers : ClientBuilder → HeaderMap → ClientBuilder
  default_headers b headers = record b { default_headers = headers }

  unfoldable pub redirect : ClientBuilder → RedirectPolicy.Policy → ClientBuilder
  redirect b policy = record b { redirect_policy = some policy }

  -- `get_or_insert_with(ProxyConfig::from_env)`
  abbrev or_from_env : (Text → Option Text) → Option ProxyConfig → ProxyConfig
  or_from_env var none = from_env var
  or_from_env var (some c) = c

  unfoldable pub proxy : (Text → Option Text) → ClientBuilder → Proxy → ClientBuilder
  proxy var b p = record b { proxy_config = some (apply_to p (or_from_env var b.proxy_config)) }

  unfoldable pub no_proxy : ClientBuilder → ClientBuilder
  no_proxy b = record b { proxy_config = some no_config }

  unfoldable pub tls_danger_accept_invalid_certs : ClientBuilder → Bool → ClientBuilder
  tls_danger_accept_invalid_certs b accept = record b { tls_danger_accept_invalid_certs = accept }

  unfoldable pub https_only : ClientBuilder → Bool → ClientBuilder
  https_only b enabled = record b { https_only = enabled }

  unfoldable pub http1_only : ClientBuilder → ClientBuilder
  http1_only b = record b { http1_only = true }

  unfoldable pub retry : ClientBuilder → Policy.Builder Uri Float → ClientBuilder
  retry b policy = record b { retry_policy = some policy }

  -- The `SessionConfig` of `build`.
  unfoldable pub session_config : ClientBuilder → ProxyConfig → SessionConfig
  unfolding winhttp_timeout_ms session_proxy
  session_config b config = record {
    user_agent = b.user_agent;
    connect_timeout_ms = timeout_or 60000 b.connect_timeout;
    send_timeout_ms = timeout_or 0 b.send_timeout;
    read_timeout_ms = timeout_or 0 b.read_timeout;
    verbose = b.verbose;
    max_connections_per_host = b.max_connections_per_host;
    proxy = session_proxy config;
    redirect_policy = b.redirect_policy;
    http1_only = b.http1_only;
  }

-- `ClientInner`, with what WinHTTP keeps for its session.
pub record ClientInner (W HeaderMap Uri : Type 0) : Type 0 where
  pub session : W
  pub total_timeout : Option ℕ
  pub proxy_config : ProxyConfig
  pub default_headers : HeaderMap
  pub accept_invalid_certs : Bool
  pub limits : Limits
  pub retry_policy : Policy.Policy Uri

-- `retry_policy.unwrap_or_else(Builder::default)`
abbrev policy_or_default :
    {Uri Float : Type 0} → Option (Policy.Builder Uri Float) → Policy.Builder Uri Float
policy_or_default {Uri} none = Policy.default Uri
policy_or_default (some b) = b

module _ {W HeaderMap Uri : Type 0} (f : F32) (abi : SessionLib W) where
  -- `ClientBuilder::build`, at the clock reading of the retry budget. The outer `none` is a failed assertion
  -- of the retry policy.
  unfoldable pub build :
      (Text → Option Text)
      → ClientBuilder HeaderMap Uri f.Float
      → ℕ
      → W
      → Option (Result Error (ClientInner W HeaderMap Uri))
  unfolding session_config
  build var b now w = elim b.error [
    | some e ↦ some (err e)
    | none ↦
        let config : ProxyConfig = elim b.proxy_config [ some c ↦ c | none ↦ from_env var ] in
        let opened = open_with abi (session_config HeaderMap Uri f.Float b config) w in
        elim opened.1 [
          | err e ↦ some (err e)
          | ok _ ↦
              Option.map
                (λ (policy : Policy.Policy Uri). ok (record {
                  session = opened.0;
                  total_timeout = b.timeout;
                  proxy_config = config;
                  default_headers = b.default_headers;
                  accept_invalid_certs = b.tls_danger_accept_invalid_certs;
                  limits = record {
                    https_only = b.https_only;
                    redirect_follows = follows b.redirect_policy;
                  };
                  retry_policy = policy;
                }))
                (Policy.into_policy Uri f (policy_or_default b.retry_policy) now)
        ]
  ]
