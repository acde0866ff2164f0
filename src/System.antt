-- ===== src/System.antt =====
-- The service as a whole.
pub mod Consistency
pub mod Requests
pub mod Statements
pub mod Writes
pub mod Invariants
pub mod UniqueKeys
pub mod Isolation
