-- ===== src/Model/Change.antt =====
-- crates/core/src/model.rs: what the followers of a fleet are told.
use prospero.Prelude.{String}
use prospero.Model.{Agent, AgentStatus, WorkspaceHealth}

pub data FleetChange : Type 0 where
  discovered : (id workspace : String) → Agent → FleetChange
  status_changed : (id workspace : String) (from to : AgentStatus) → FleetChange
  gone : (id workspace : String) → FleetChange
  workspace_health : (workspace : String) → WorkspaceHealth → FleetChange
