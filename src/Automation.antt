-- ===== src/Automation.antt =====
-- crates/types/src/automation.rs: stored spawn templates and their triggers, and `StoredAutomation` of
-- crates/core/src/automation.rs, whose engine is below it. A time is in whole seconds; its stamp has a fixed width, so that the text
-- order of stamps is the order of times.
pub mod Store
pub mod Template
pub mod Engine
pub mod Firing
use prospero.Prelude.{ℕ, Bool, Option, List, String}
use prospero.Model.{PermissionPosture}

pub data Trigger : Type 0 where
  cron : (schedule : String) → Trigger
  webhook : Trigger

pub record SpawnTemplate : Type 0 where
  pub task : String
  pub label : Option String
  pub model : Option String
  pub tool_allowlist : Option (List String)
  pub frontmatter_path : Option String
  pub provider_ref : Option String
  pub timeout_secs : Option ℕ
  pub isolation_worktree : Bool
  pub permission_posture : PermissionPosture

pub record Automation : Type 0 where
  pub id : String
  pub workspace : String
  pub trigger : Trigger
  pub template : SpawnTemplate
  pub enabled : Bool
  pub created_at : ℕ
  pub last_fired_at : Option ℕ

pub data RunSource : Type 0 where
  by_schedule by_webhook by_hand : RunSource

pub record AutomationRun : Type 0 where
  pub automation_id : String
  pub fired_at : ℕ
  pub source : RunSource
  pub agent_id : Option String
  pub error : Option String

pub record StoredAutomation : Type 0 where
  pub automation : Automation
  pub webhook_secret : Option String
