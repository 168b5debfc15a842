-- ===== src/Tests.antt =====
-- Runs of the model at concrete inputs.
pub mod Abi
pub mod Builder
pub mod Callback
pub mod Client
pub mod Encoding
pub mod Policy
pub mod Proxy
pub mod Request
pub mod Response
pub mod Retry
pub mod Samples
pub mod Send
pub mod Timer
pub mod Util
pub mod Transport
pub mod Url
pub mod WinHttp
