-- ===== src/Dashboard.antt =====
-- crates/dashboard/src: the parts of the browser client that decide something.
pub mod Session
pub mod Backoff
pub mod Timeline
pub mod View
