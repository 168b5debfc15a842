-- ===== src/WinHttp.antt =====
-- src/winhttp.rs: parts of the transport.
pub mod Close
pub mod Dispatch
pub mod Events
pub mod Execute
pub mod Leak
pub mod Read
pub mod Redirect
pub mod Replay
pub mod Reply
pub mod Send
pub mod Session
pub mod Transport
pub mod Write
