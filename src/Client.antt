-- ===== src/Client.antt =====
-- src/client.rs: `Inner` is one attempt, `Execute` the retry loop, `Send` building and executing,
-- `Requests` the methods that start a request, `Builder` the builder of clients, `Attempts` what the loop
-- guarantees.
pub mod Builder
pub mod Inner
pub mod Execute
pub mod Attempts
pub mod Deadline
pub mod Defaults
pub mod Delivery
pub mod Downgrade
pub mod Spending
pub mod Requests
pub mod Send
