-- ===== src/Store.antt =====
-- crates/core/src/store.rs: the durable event log.
pub mod Query
pub mod Order
pub mod Cursor
pub mod Sqlite
