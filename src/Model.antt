-- ===== src/Model.antt =====
-- crates/types/src/model.rs: the fleet's read model. A path is its text.
pub mod Ends
pub mod Event
pub mod Change
use prospero.Prelude.{ℕ, Bool, true, false, Option, none, List, [], String, ◌≡◌}

-- How a session handles tool calls that need permission.
pub data PermissionPosture : Type 0 where
  supervised unattended : PermissionPosture

-- Lifecycle state of an agent.
pub data AgentStatus : Type 0 where
  spawning running idle killed done failed crashed : AgentStatus

-- States where the agent will produce no further work.
unfoldable pub is_terminal : AgentStatus → Bool
is_terminal killed = true
is_terminal done = true
is_terminal failed = true
is_terminal crashed = true
is_terminal _ = false

-- States where the agent may still be streaming output.
unfoldable pub is_active : AgentStatus → Bool
is_active spawning = true
is_active running = true
is_active _ = false

-- Connectivity of a workspace's caliband.
pub data WorkspaceHealth : Type 0 where
  healthy : WorkspaceHealth
  unreachable : String → WorkspaceHealth

-- One agent, as projected from a caliban record.
pub record Agent : Type 0 where
  pub id : String
  pub name : String
  pub workspace : String
  pub status : AgentStatus
  pub started_at : String
  pub isolated : Bool
  pub interactive : Bool
  pub session_dir : String
  pub permission_posture : PermissionPosture
  pub reason : Option String
  pub detail : Option String
