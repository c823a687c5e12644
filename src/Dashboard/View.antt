-- ===== src/Dashboard/View.antt =====
-- crates/dashboard/src/view_model.rs: what the views show and the API does not send. `digest` is the
-- hash of an agent's id, its workspace and its status, a number below 2 ^ 64.
pub mod Totals
use Prim.Native.String.{◌++◌ as str_append}
use prospero.Prelude.{
  ℕ, zero, suc, ◌+◌, ◌%◌, ◌^◌, Bool, true, false, ◌&&◌, Option, none, some, List, [], ◌∷◌, String,
  leb, if◌then◌else◌, length, is_empty,
}
use prospero.Model.{
  Agent, AgentStatus, PermissionPosture, supervised, unattended, WorkspaceHealth, healthy,
  unreachable,
}
use prospero.Fleet.Manager.{Workspace, FleetSnapshot}
use prospero.Auth.{Scope, rank, as_str}

pub record StatusCounts : Type 0 where
  pub running : ℕ
  pub idle : ℕ
  pub spawning : ℕ
  pub done : ℕ
  pub bad : ℕ

unfoldable pub total : StatusCounts → ℕ
total c = c.running + c.idle + c.spawning + c.done + c.bad

unfoldable pub no_counts : StatusCounts
no_counts = record { running = 0; idle = 0; spawning = 0; done = 0; bad = 0 }

unfoldable pub count_status : StatusCounts → AgentStatus → StatusCounts
count_status c AgentStatus.running = record c { running = c.running + 1 }
count_status c AgentStatus.idle = record c { idle = c.idle + 1 }
count_status c AgentStatus.spawning = record c { spawning = c.spawning + 1 }
count_status c AgentStatus.done = record c { done = c.done + 1 }
count_status c AgentStatus.killed = record c { bad = c.bad + 1 }
count_status c AgentStatus.failed = record c { bad = c.bad + 1 }
count_status c AgentStatus.crashed = record c { bad = c.bad + 1 }

unfoldable pub count_from : StatusCounts → List Agent → StatusCounts
count_from c [] = c
count_from c (a ∷ rest) = count_from (count_status c a.status) rest

unfoldable pub count_statuses : List Agent → StatusCounts
count_statuses agents = count_from no_counts agents

unfoldable pub add_counts : StatusCounts → StatusCounts → StatusCounts
add_counts t c = record {
  running = t.running + c.running;
  idle = t.idle + c.idle;
  spawning = t.spawning + c.spawning;
  done = t.done + c.done;
  bad = t.bad + c.bad;
}

unfoldable pub is_healthy : WorkspaceHealth → Bool
is_healthy healthy = true
is_healthy (unreachable reason) = false

unfoldable pub health_reason : WorkspaceHealth → Option String
health_reason healthy = none
health_reason (unreachable reason) = some reason

pub record FleetTotals : Type 0 where
  pub workspaces : ℕ
  pub agents : ℕ
  pub healthy : ℕ
  pub unreachable : ℕ
  pub statuses : StatusCounts

module _ {Config : Type 0} where
  unfoldable pub add_workspace : FleetTotals → Workspace Config → FleetTotals
  add_workspace t ws = record t {
    healthy = if is_healthy ws.health then t.healthy + 1 else t.healthy;
    unreachable = if is_healthy ws.health then t.unreachable else t.unreachable + 1;
    agents = t.agents + length ws.agents;
    statuses = add_counts t.statuses (count_statuses ws.agents);
  }

  unfoldable pub add_workspaces : FleetTotals → List (Workspace Config) → FleetTotals
  add_workspaces t [] = t
  add_workspaces t (ws ∷ rest) = add_workspaces (add_workspace t ws) rest

  unfoldable pub fresh_totals : FleetSnapshot Config → FleetTotals
  fresh_totals snap = record {
    workspaces = length snap.workspaces;
    agents = 0;
    healthy = 0;
    unreachable = 0;
    statuses = no_counts;
  }

  unfoldable pub totals : FleetSnapshot Config → FleetTotals
  totals snap = add_workspaces (fresh_totals snap) snap.workspaces

  unfoldable pub is_launchable : Workspace Config → Bool
  is_launchable ws = is_healthy ws.health

module _ (digest : String → String → AgentStatus → ℕ) where
  unfoldable pub key_of_agents : ℕ → List Agent → ℕ
  key_of_agents key [] = key
  key_of_agents key (a ∷ rest) =
      key_of_agents ((key + digest a.id a.workspace a.status) % 2 ^ 64) rest

  unfoldable pub key_of_workspaces : {Config : Type 0} → ℕ → List (Workspace Config) → ℕ
  key_of_workspaces key [] = key
  key_of_workspaces key (ws ∷ rest) = key_of_workspaces (key_of_agents key ws.agents) rest

  unfoldable pub activity_key : {Config : Type 0} → FleetSnapshot Config → ℕ
  activity_key snap = key_of_workspaces 0 snap.workspaces

unfoldable pub status_label : AgentStatus → String
status_label AgentStatus.spawning = "spawning"
status_label AgentStatus.running = "running"
status_label AgentStatus.idle = "idle"
status_label AgentStatus.killed = "killed"
status_label AgentStatus.done = "done"
status_label AgentStatus.failed = "failed"
status_label AgentStatus.crashed = "crashed"

unfoldable pub status_tone : AgentStatus → String
status_tone AgentStatus.running = "live"
status_tone AgentStatus.spawning = "live"
status_tone AgentStatus.idle = "wait"
status_tone AgentStatus.done = "done"
status_tone AgentStatus.killed = "bad"
status_tone AgentStatus.failed = "bad"
status_tone AgentStatus.crashed = "bad"

-- The first `n` characters.
unfoldable pub take_chars : ℕ → String → String
take_chars zero s = ""
take_chars (suc n) String.[] = ""
take_chars (suc n) (String.◌∷◌ c s) = String.◌∷◌ c (take_chars n s)

unfoldable pub short_id : String → String
short_id id = take_chars 8 id

unfoldable pub launch_note : Bool → String → String → String
launch_note true agent_id workspace =
    str_append "Launched "
      (str_append (short_id agent_id) (str_append " in " (str_append workspace ".")))
launch_note false agent_id workspace = str_append "Attached to the existing run " (
    str_append (short_id agent_id)
      (str_append " in " (str_append workspace " — an identical prompt was already in flight.")))

pub data AgentControls : Type 0 where
  killable finished : AgentControls

unfoldable pub controls_for : AgentStatus → AgentControls
controls_for AgentStatus.spawning = killable
controls_for AgentStatus.running = killable
controls_for AgentStatus.idle = killable
controls_for AgentStatus.killed = finished
controls_for AgentStatus.done = finished
controls_for AgentStatus.failed = finished
controls_for AgentStatus.crashed = finished

is_idle : AgentStatus → Bool
is_idle AgentStatus.idle = true
is_idle _ = false

unfoldable pub awaits_input : Agent → Bool
unfolding is_idle
awaits_input a = a.interactive && is_idle a.status

pub data SessionInfo : Type 0 where
  disabled : SessionInfo
  token : (token_name : String) (scope : Scope) (expires_at : Option String) → SessionInfo

pub data SessionState : Type 0 where
  checking : SessionState
  signed_out : Option String → SessionState
  signed_in : SessionInfo → SessionState

unfoldable pub permits : SessionState → Scope → Bool
permits (signed_in disabled) need = true
permits (signed_in (token token_name scope expires_at)) need = leb (rank need) (rank scope)
permits checking need = false
permits (signed_out notice) need = false

unfoldable pub session_label : SessionState → Option String
session_label (signed_in (token token_name scope expires_at)) =
    some (str_append token_name (str_append " · " (as_str scope)))
session_label (signed_in disabled) = none
session_label checking = none
session_label (signed_out notice) = none

note_of : String → Option String → String
note_of reason none = reason
note_of reason (some detail) =
    if is_empty detail then reason else str_append reason (str_append " — " detail)

note : Option String → Option String → Option String
unfolding note_of
note none detail = none
note (some reason) detail = some (note_of reason detail)

unfoldable pub failure_note : Agent → Option String
unfolding note
failure_note a = note a.reason a.detail

unfoldable pub posture_tag : PermissionPosture → Option (String × String)
posture_tag supervised = none
posture_tag unattended =
    some ("bypass", "Unattended: runs every tool without asking for permission")
