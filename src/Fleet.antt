-- ===== src/Fleet.antt =====
-- crates/core/src/fleet.rs: the emitter, the attach task, and the fleet manager with its poll, its control
-- of agents and its workspaces.
pub mod Emitter
pub mod Attach
pub mod Manager
pub mod Reconcile
pub mod Poll
pub mod Control
pub mod Workspaces
pub mod Changes
