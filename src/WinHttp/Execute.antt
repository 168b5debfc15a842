-- ===== src/WinHttp/Execute.antt =====
-- src/winhttp.rs: `execute_request`, from the opening of the connection to the headers of the response.
-- The buffers, the state and the context that it makes for the callbacks are modelled by `Callback` and
-- `WinHttp.Dispatch`.
use wrest.Body.{Body}
use wrest.Error.{Error}
use wrest.Http.{HeaderMapLib}
use wrest.Prelude.Result.{Result, ok, err}
use wrest.Prelude.Text.{Text, codes}
use wrest.Prelude.{ℕ, Bool, List, [], ◌∷◌, ◌++◌, Option, none, some, if◌then◌else◌}
use wrest.Proxy.{Creds, ProxyAction, ProxyConfig, direct, named, automatic, resolve}
use wrest.Response.Types.{RawResponse}
use wrest.Url.Parse.{UriLib, parse_impl}
use wrest.Url.Types.{Url}
use wrest.WinHttp.Replay.{new_retry, transmit}
use wrest.WinHttp.Reply.{
  ProtocolFlags, parse_raw_headers, parse_winhttp_status_code, resolve_version,
}
use wrest.WinHttp.Send.{crlf}
use wrest.WinHttp.Transport.{Op, Winhttp, pure, lift, ◌>>=◌, ◌>>◌, at_url}

-- The queries of a response.
pub record Queries (W : Type 0) : Type 0 where
  pub status_code : Op W ℕ
  pub raw_headers : Op W Text
  pub protocol_used : W → Option ProtocolFlags
  pub version : W → Option Text

module _ {W : Type 0} (abi : Winhttp W) (url : Url) where
  -- The credentials of a named proxy.
  unfoldable pub set_credentials : Creds → Op W (Unit {0})
  set_credentials none = pure tt
  set_credentials (some (username, password)) =
      at_url url (abi.set_proxy_credentials username password.expose)

  -- The `match` on the proxy of the request.
  unfoldable pub override_proxy : ProxyAction → Op W (Unit {0})
  unfolding set_credentials
  override_proxy direct = at_url url abi.set_proxy_direct
  override_proxy (named proxy_url creds) =
      at_url url (abi.set_proxy_named proxy_url) >> set_credentials creds
  override_proxy automatic = pure tt

  unfoldable pub add_headers : List (Text × Text) → Op W (Unit {0})
  add_headers [] = pure tt
  add_headers ((name, value) ∷ headers) =
      at_url url (abi.add_request_header (name ++ (codes ": " ++ (value ++ crlf))))
      >> add_headers headers

  -- Everything before the send.
  unfoldable pub prepare : Text → List (Text × Text) → ProxyConfig → Bool → Op W (Unit {0})
  unfolding override_proxy add_headers
  prepare method headers config accept_invalid_certs = do
    at_url url (abi.connect url.host url.port)
    at_url url (abi.open_request method url.path_and_query url.is_https)
    at_url url abi.set_context_value
    override_proxy (resolve config url.host url.is_https)
    (if url.is_https then at_url url abi.set_no_client_cert else pure tt)
    (if accept_invalid_certs then at_url url abi.set_security_flags else pure tt)
    add_headers headers

  module _ (uri : UriLib) (http : HeaderMapLib) (from_u16 : ℕ → Option ℕ)
      (queries : Queries W) where
    open http use {HeaderMap}

    -- The URL after redirects, or the URL of the request where it cannot be read or parsed.
    unfoldable pub final_url : W → Url
    final_url w = elim (abi.query_option_url w) [
      | none ↦ url
      | some s ↦ elim (parse_impl uri s) [ err _ ↦ url | ok u ↦ u ]
    ]

    -- The queries after the response has been received.
    unfoldable pub read_reply : ℕ → Op W (RawResponse HeaderMap)
    unfolding final_url
    read_reply request_handle = do
      code ← at_url url queries.status_code
      status ← lift (parse_winhttp_status_code from_u16 code url)
      raw ← at_url url queries.raw_headers
      λ w. (
        w,
        ok (record {
          request_handle = request_handle;
          status = status;
          version = resolve_version (queries.protocol_used w) (queries.version w);
          url = final_url w;
          headers = parse_raw_headers http raw;
        }),
      )

    unfoldable pub execute_request :
        Text
        → List (Text × Text)
        → Option Body
        → ProxyConfig
        → Bool
        → ℕ
        → W
        → W × Option (Result Error (RawResponse HeaderMap))
    unfolding prepare read_reply
    execute_request method headers body config accept_invalid_certs request_handle w =
        let (w', prepared) = prepare method headers config accept_invalid_certs w in
        let (w'', sent) = transmit uri abi url (new_retry url method body) body w' in
        let (w''', reply) = read_reply request_handle w'' in
        elim prepared [
          | err e ↦ (w', some (err e))
          | ok _ ↦ elim sent [
            | none ↦ (w'', none)
            | some received ↦ elim received [
              | err e ↦ (w'', some (err e))
              | ok _ ↦ (w''', some reply)
            ]
          ]
        ]
