-- ===== src/K8s/Task.antt =====
-- The pure projections of crates/core/src/k8s/fleet.rs, between a `CalibanTask` and what prospero and
-- caliband know of it, and the condition of k8s/status.rs.
use Prim.Native.Char.{code, nul}
use Prim.Native.String.{◌++◌ as str_append}
use prospero.Prelude.{
  Bool, true, false, not, ◌&&◌, ◌||◌, Option, none, some, List, [], ◌∷◌, map, String, str_eq,
  if◌then◌else◌, find, all, any, is_empty, cut, take_bytes, trim, is_whitespace,
}
use prospero.Error.{Result, ok, err, fleet}
use prospero.Model.{
  Agent, AgentStatus, PermissionPosture, supervised, unattended, healthy, spawning, running, idle,
  done, failed, crashed, is_terminal,
}
use prospero.Caliband.Wire.{wire_posture}
use prospero.Fleet.Manager.{Workspace}
use prospero.Fleet.Control.{SpawnRequest, SpawnSpec}
use prospero.K8s.{
  Metadata, CalibanTask, CalibanTaskStatus, ResolvedWorkspace, Provider, IsolationSpec, Condition,
  WorkspaceCr,
}
use prospero.K8s

-- crates/core/src/model.rs
pub record TaskSpec : Type 0 where
  pub workspace : String
  pub request : SpawnRequest

-- caliband's endpoint.
pub data Endpoint : Type 0 where
  unix : (path : String) → Endpoint
  tcp : (addr : String) → Endpoint

-- crates/core/src/model.rs
pub record AgentHandle : Type 0 where
  pub id : String
  pub workspace : String
  pub endpoint : Option Endpoint
  pub created : Bool

-- `unwrap_or_default` of a text.
unfoldable pub or_empty : Option String → String
or_empty none = ""
or_empty (some s) = s

-- What is hashed: the parts, with a zero byte between them. No label is as an empty one.
unfoldable pub hashed : TaskSpec → String
hashed spec =
    str_append spec.workspace (
      String.◌∷◌ nul
        (str_append spec.request.prompt (String.◌∷◌ nul (or_empty spec.request.label))))

-- `sha256_hex` gives the hexadecimal digits of the SHA-256 of a text in UTF-8.
unfoldable pub task_name : (sha256_hex : String → String) → TaskSpec → String
task_name sha256_hex spec = str_append "ct-" (take_bytes 16 (sha256_hex (hashed spec)))

is_supervised : PermissionPosture → Bool
is_supervised supervised = true
is_supervised unattended = false

unfoldable pub new_metadata : String → Metadata
new_metadata name = record { name = some name; uid = none; creation_timestamp = none }

unfoldable pub build_calibantask : TaskSpec → String → CalibanTask
unfolding is_supervised new_metadata
build_calibantask spec name = record {
  metadata = new_metadata name;
  spec = record {
    workspace_ref = spec.workspace;
    provider_ref = spec.request.provider_ref;
    task = record {
      prompt = spec.request.prompt;
      agent_type = none;
      interactive = if spec.request.interactive then some true else none;
      permission_posture =
          if is_supervised spec.request.permission_posture
          then none
          else some spec.request.permission_posture;
    };
    isolation = none;
    tools = spec.request.tool_allowlist;
  };
  status = none;
}

unfoldable pub has_whitespace : String → Bool
has_whitespace String.[] = false
has_whitespace (String.◌∷◌ c s) = is_whitespace (code c) || has_whitespace s

-- `contains("://")`.
unfoldable pub is_found : Option (String × String) → Bool
is_found none = false
is_found (some parts) = true

-- `debug` quotes a text for a message.
unfoldable pub validate_caliband_endpoint : (debug : String → String) → String → Result (Unit {0})
unfolding is_found
validate_caliband_endpoint debug addr =
    if is_empty (trim addr)
    then err (fleet "CalibanTask status.calibandEndpoint is empty")
    else (if is_found (cut "://" addr)
        then err (
            fleet (
              str_append "CalibanTask status.calibandEndpoint must be a bare host:port, not a URL: "
                (debug addr)))
        else (if has_whitespace addr
            then err (
                fleet (
                  str_append "CalibanTask status.calibandEndpoint contains whitespace: "
                    (debug addr)))
            else ok tt))

unfoldable pub handle_of :
    (debug : String → String) → String → String → String → Result (Option AgentHandle)
handle_of debug repo addr name = elim (validate_caliband_endpoint debug addr) [
  | err e ↦ err e
  | ok _ ↦
      ok
        (some (record { id = name; workspace = repo; endpoint = some (tcp addr); created = false }))
]

-- The endpoint of a `Running` task that has one.
unfoldable pub running_endpoint : Option CalibanTaskStatus → Option String
running_endpoint none = none
running_endpoint (some status) =
    if str_eq status.phase "Running" then status.caliband_endpoint else none

unfoldable pub handle_at :
    (debug : String → String) → String → Option String → Option String → Result (Option AgentHandle)
handle_at debug repo none name = ok none
handle_at debug repo (some addr) none = ok none
handle_at debug repo (some addr) (some name) = handle_of debug repo addr name

unfoldable pub handle_from :
    (debug : String → String) → CalibanTask → String → Result (Option AgentHandle)
handle_from debug task repo = handle_at debug repo (running_endpoint task.status) task.metadata.name

unfoldable pub resolved_provider : Option CalibanTaskStatus → Option Provider
resolved_provider none = none
resolved_provider (some status) = elim status.resolved_workspace [
  | none ↦ none
  | some rw ↦ some rw.provider
]

-- The posture that the operator has admitted.
unfoldable pub admitted_posture : Option CalibanTaskStatus → PermissionPosture
admitted_posture none = supervised
admitted_posture (some status) = elim status.permission_posture [
  | none ↦ supervised
  | some posture ↦ posture
]

unfoldable pub is_per_source : Option IsolationSpec → Bool
is_per_source none = false
is_per_source (some i) = elim i.worktrees [ none ↦ false | some w ↦ str_eq w "per-source" ]

provider_model : Option Provider → Option String
provider_model none = none
provider_model (some p) = p.model

provider_kind : Option Provider → Option String
provider_kind none = none
provider_kind (some p) = some p.kind

or_false : Option Bool → Bool
or_false none = false
or_false (some b) = b

unfoldable pub spawn_spec_from_task : CalibanTask → SpawnSpec
unfolding provider_model provider_kind or_false
spawn_spec_from_task task = record {
  label = task.metadata.name;
  frontmatter_path = none;
  initial_prompt = task.spec.task.prompt;
  model = provider_model (resolved_provider task.status);
  provider = provider_kind (resolved_provider task.status);
  tool_allowlist = task.spec.tools;
  isolation_worktree = is_per_source task.spec.isolation;
  inherit_hooks = true;
  interactive = or_false task.spec.task.interactive;
  permission_posture = wire_posture (admitted_posture task.status);
}

unfoldable pub phase_to_status : String → AgentStatus
phase_to_status phase =
    if str_eq phase "" || str_eq phase "Pending" || str_eq phase "Provisioning"
    then spawning
    else (if str_eq phase "Running"
        then running
        else (if str_eq phase "Draining"
            then idle
            else (if str_eq phase "Completed" then done else failed)))

explained : Option Condition → Option String × Option String
explained none = (none, none)
explained (some c) =
    if str_eq c.status "True"
    then (none, none)
    else (if is_empty c.reason then none else some c.reason, c.message)

unfoldable pub unready_reason : Option CalibanTaskStatus → Option String × Option String
unfolding explained
unready_reason none = (none, none)
unready_reason (some s) = explained (find (λ (c : Condition). str_eq c.type_ "Ready") s.conditions)

phase_of : Option CalibanTaskStatus → String
phase_of none = ""
phase_of (some s) = s.phase

unfoldable pub agent_from_task : CalibanTask → Agent
unfolding phase_of
agent_from_task task = record {
  id = or_empty task.metadata.name;
  name = or_empty task.metadata.name;
  workspace = task.spec.workspace_ref;
  status = phase_to_status (phase_of task.status);
  started_at = or_empty task.metadata.creation_timestamp;
  isolated = false;
  interactive = false;
  session_dir = "";
  permission_posture = admitted_posture task.status;
  reason = (unready_reason task.status).0;
  detail = (unready_reason task.status).1;
}

-- `config` is an empty configuration.
unfoldable pub workspace_view :
    {Config : Type 0} → (config : Config) → WorkspaceCr → List Agent → Workspace Config
workspace_view config ws agents = record {
  name = or_empty ws.metadata.name;
  root = "";
  sources = map (λ (s : K8s.Source). record { name = s.name; path = s.path }) ws.spec.sources;
  health = healthy;
  config = config;
  agents = agents;
}

is_bad : AgentStatus → Bool
is_bad failed = true
is_bad crashed = true
is_bad _ = false

no_agents : List AgentStatus → Bool
no_agents [] = true
no_agents (s ∷ rest) = false

settled_as : (status reason : String) → Condition
settled_as status reason = record {
  type_ = "AgentsSettled";
  status = status;
  reason = reason;
  message = none;
}

unfoldable pub agents_settled_condition : List AgentStatus → Condition
unfolding is_bad no_agents settled_as
agents_settled_condition agents =
    if not (not (no_agents agents) && all is_terminal agents)
    then settled_as "False" "AgentsActive"
    else (if any is_bad agents then settled_as "True" "Failed" else settled_as "True" "Succeeded")
