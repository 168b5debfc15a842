-- ===== src/Response.antt =====
-- src/response.rs: the response. `Types` has the data.
pub mod Chunk
pub mod Collect
pub mod Types
