-- ===== src/Url.antt =====
-- src/url.rs: parsed URLs. `Types` has the data, `Parse` the parser over `fluent-uri`, `Edit` the
-- changes to a parsed URL, `Join` reference resolution, `Consistent` the invariant of all of them.
pub mod Types
pub mod Edit
pub mod Parse
pub mod Join
pub mod Consistent
pub mod Reach
pub mod Access
