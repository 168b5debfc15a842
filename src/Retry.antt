-- ===== src/Retry.antt =====
-- src/retry.rs: the retry budget, the policy builder, and the classification of results.
pub mod Budget
pub mod Default
pub mod Policy
