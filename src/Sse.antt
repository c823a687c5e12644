-- ===== src/Sse.antt =====
-- crates/api/src/sse.rs and its state machine, crates/api/src/sse/tail.rs.
pub mod Tail
pub mod Fleet
