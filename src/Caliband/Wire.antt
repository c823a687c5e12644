-- ===== src/Caliband/Wire.antt =====
-- crates/core/src/caliband/wire.rs: caliband's vocabulary in prospero's. The types of the contract that
-- caliband publishes have the cases that the source matches on and the fields that it reads.
use prospero.Prelude.{Bool, String, ◌≡◌, refl}
use prospero.Model.{AgentStatus, PermissionPosture}

pub data WireAgentStatus : Type 0 where
  spawning running idle killed drained done failed crashed : WireAgentStatus

pub data WirePermissionPosture : Type 0 where
  supervised unattended : WirePermissionPosture

pub record AgentRecord : Type 0 where
  pub id : String
  pub name : String
  pub status : WireAgentStatus
  pub started_at : String
  pub session_dir : String
  pub isolation_worktree : Bool
  pub interactive : Bool
  pub permission_posture : WirePermissionPosture

unfoldable pub domain_status : WireAgentStatus → AgentStatus
domain_status WireAgentStatus.spawning = AgentStatus.spawning
domain_status WireAgentStatus.running = AgentStatus.running
domain_status WireAgentStatus.idle = AgentStatus.idle
domain_status WireAgentStatus.killed = AgentStatus.killed
domain_status WireAgentStatus.drained = AgentStatus.done
domain_status WireAgentStatus.done = AgentStatus.done
domain_status WireAgentStatus.failed = AgentStatus.failed
domain_status WireAgentStatus.crashed = AgentStatus.crashed

unfoldable pub wire_status : AgentStatus → WireAgentStatus
wire_status AgentStatus.spawning = WireAgentStatus.spawning
wire_status AgentStatus.running = WireAgentStatus.running
wire_status AgentStatus.idle = WireAgentStatus.idle
wire_status AgentStatus.killed = WireAgentStatus.killed
wire_status AgentStatus.done = WireAgentStatus.done
wire_status AgentStatus.failed = WireAgentStatus.failed
wire_status AgentStatus.crashed = WireAgentStatus.crashed

unfoldable pub wire_posture : PermissionPosture → WirePermissionPosture
wire_posture PermissionPosture.supervised = WirePermissionPosture.supervised
wire_posture PermissionPosture.unattended = WirePermissionPosture.unattended

unfoldable pub domain_posture : WirePermissionPosture → PermissionPosture
domain_posture WirePermissionPosture.supervised = PermissionPosture.supervised
domain_posture WirePermissionPosture.unattended = PermissionPosture.unattended

-- Every status that prospero sends is read back as itself.
pub domain_status-wire_status : (s : AgentStatus) → domain_status (wire_status s) ≡ s
unfolding domain_status wire_status
domain_status-wire_status AgentStatus.spawning = refl
domain_status-wire_status AgentStatus.running = refl
domain_status-wire_status AgentStatus.idle = refl
domain_status-wire_status AgentStatus.killed = refl
domain_status-wire_status AgentStatus.done = refl
domain_status-wire_status AgentStatus.failed = refl
domain_status-wire_status AgentStatus.crashed = refl
