-- ===== src/Lib.antt =====
-- Verification of wrest, an HTTP client over WinHTTP with the interface of reqwest.
--
-- A request is built by src/request.rs and goes through `Client::execute` (src/client.rs): the
-- retry loop asks the policy of src/retry.rs whether a result may be retried and its token budget
-- whether a retry is affordable, and each attempt checks the scheme, races the transport with the
-- deadline, and refuses a redirect from https to http. URLs (src/url.rs), proxies (src/proxy.rs),
-- bodies (src/body.rs), errors (src/error.rs) and charset decoding (src/encoding.rs) are the
-- components that it rests on.
--
-- - Prelude: names passed on, lists, texts, integers with saturation, and results.
-- - Redact: `Redacted` of src/redact.rs.
-- - Url: `Url` of src/url.rs. Types has the data, Edit `set_query`, `take_decoded_userinfo` and
--   `rebuild_serialized`, Parse `parse_impl`, Join `join`; Consistent and Reach are about them.
--   Access has `domain`, the order of URLs, `into_url` and `from_http_uri`.
-- - Error: `Error` of src/error.rs with the chain of its sources; Display has the tests of the kind and
--   the message.
-- - Body: `Body` of src/body.rs. A stream is the list of its items.
-- - Http: header maps of the crate http.
-- - Response: src/response.rs. Types has `RawResponse` and `Response`, Chunk the reading of the body;
--   Collect is about it.
-- - Client: `execute` (Execute), `execute_inner` (Inner), the methods that start a request
--   (Requests) and the builder (Builder) of src/client.rs, and `RequestBuilder::send` (Send);
--   Attempts, Spending, Delivery, Downgrade, Defaults and Builder/Timeouts are about them.
-- - Retry: Budget is the module `budget` of src/retry.rs, Policy its builder, policy and
--   classifier; Budget/Bounds, Budget/Permits and Budget/Window are about the budget, Default about
--   the policy.
-- - Proxy: src/proxy.rs; Proxy/Choice, Proxy/Host, Proxy/Patterns and Proxy/Entries
--   are about it.
-- - Encoding: `decode_body` of src/encoding.rs; Labels and Backend are its tables, Decoders and
--   Utf8 its decoders, and Total, Bom, RoundTrip and Utf8RoundTrip are about it.
-- - WinHttp: src/winhttp.rs. Session is `WinHttpSession::open`, Execute `execute_request`, which goes
--   through Send, the three ways to send a body, Replay, the sending with `CertlessRedirectRetry` and
--   the receive loop, and Reply, the status code, version and headers; Transport has the operations
--   on a request. Events is `CallbackEvent` with its errors, Dispatch the status callback, Redirect
--   its redirect arm with `Origin` and `CallbackAbort`, Read `read_chunk`, Write the loop
--   `write_data_with`, Close `RequestCloseState` with its operations as steps. Leak, Write/Cover and
--   the children of the others are about them.
-- - Callback: `CompletionSignal` and `await_win32` of src/callback.rs, and in Context
--   `CallbackContext`; Callback/Events is about the signal.
-- - Timer, Threadpool: `Delay` of src/timer.rs and `ThreadpoolTimer` of src/threadpool.rs;
--   Timer/Fires, Timer/Teardown and Threadpool/DueTime are about them.
-- - RedirectPolicy: src/redirect.rs.
-- - Request: `RequestBuilder` of src/request.rs with `build`, and the Latin-1 conversions of
--   src/util.rs; Request/Form has queries, forms and JSON bodies, Request/Auth authorization and the
--   other setters; Request/Merge is about the headers, Request/Clone about copies.
-- - Util: the wide strings of src/util.rs; Util/Wide is about them.
-- - Abi: the decoders (Decode), IDNA (Idna) and the queries in two calls (Queries) of src/abi; Decode
--   gives `decode_body` its platform decoders, and Fallback is about when each of them decodes;
--   TwoCalls is about Queries.
-- - Tests: runs at concrete inputs.
--
-- How the transport and the callbacks meet: an awaited operation listens on the completion signal,
-- starts, and waits (`Callback.await_win32`); the status callback (`WinHttp.Dispatch`) signals its
-- event, which `WinHttp.Events` converts. `execute_request` is over operations that have been
-- awaited, and `Response.Chunk` over reads that `read_chunk` has returned. Where either races with the
-- timer of a deadline, the polls that find the reply and the fired timer are inputs: a timer may fire
-- late, or not at all where it could not be created.
--
-- Numbers are natural numbers; words and bytes of a fixed width are written out. Tokens of the budget
-- are integers with the saturation of `isize` written out; times are nanoseconds. A text is the list
-- of its scalar values. Recursion is structural: the retry loop goes by the retries that remain, the
-- clearing of budget slots by the rounds of the source's `for`. Fuel has the write loop, a round for
-- each byte of the buffer; the loop over the pieces of a large body, likewise; the receive loop, two
-- rounds, since it replays once; and the digits of a number, one more than the number.
--
-- Parameters stand for code that is not in the repository: the parser of fluent-uri, percent
-- decoding and IDNA (`UriLib`), header maps (`HeaderMapLib`), Base64, the parsing of a method,
-- `f32` (`F32`), `http::Uri`, the table of `std::io::ErrorKind`s, the functions of the operating
-- system that decode (`Nls`, `IcuFunctions`) and that make names ASCII (`IcuIdnaFunctions`), what
-- serde makes of a value and the serializer of form_urlencoded, the one-shot channels of
-- futures-channel (`OneshotLib`), the wrappers of WinHTTP (`Winhttp`, `Queries`, `SessionLib`), the
-- removal of a header from a WinHTTP request handle, the completion of a write, the reason phrase
-- of a status code, which hosts are IP addresses, the parsing of a status code, of a media type and
-- of an unsigned number, and the transport's reply.
--
-- Not modelled: JSON of src/response.rs, whose decoding is a library; `Debug`; the conversions to the
-- types of the crate http; verbose logging; and the wrappers in src/abi that only pass their
-- arguments on.
pub mod Abi
pub mod Body
pub mod Callback
pub mod Client
pub mod Encoding
pub mod Error
pub mod Http
pub mod Prelude
pub mod Proxy
pub mod Redact
pub mod RedirectPolicy
pub mod Request
pub mod Response
pub mod Retry
pub mod Tests
pub mod Threadpool
pub mod Timer
pub mod Url
pub mod Util
pub mod WinHttp
