-- ===== src/Fleet/Manager.antt =====
-- `FleetManager` of crates/core/src/fleet.rs: its state, and what it answers from it. A map is an
-- association list; `emitted` lists the calls of the emitter, in order, each by its arguments.
-- `Config` is a workspace's provider configuration.
use prospero.Prelude.{
  ℕ, ◌-◌, Bool, true, false, not, Option, none, some, List, [], ◌∷◌, ◌++◌, map, String, str_eq,
  if◌then◌else◌, find, filter, length, get,
}
use prospero.Error.{Result, ok, err, agent_not_found, invalid_state}
use prospero.Model.{Agent, WorkspaceHealth, healthy, unreachable, is_terminal}
use prospero.Model.Event.{EventKind}
use prospero.Registry.{RegisteredWorkspace}

pub record Source : Type 0 where
  pub name : String
  pub path : String

pub record Workspace (Config : Type 0) : Type 0 where
  pub name : String
  pub root : String
  pub sources : List Source
  pub health : WorkspaceHealth
  pub config : Config
  pub agents : List Agent

pub record FleetSnapshot (Config : Type 0) : Type 0 where
  pub host : String
  pub workspaces : List (Workspace Config)

-- A call of `Emitter.emit`.
pub record Emission (V : Type 0) : Type 0 where
  pub repo : String
  pub agent_id : String
  pub kind : EventKind V

pub record Manager (V Config : Type 0) : Type 0 where
  pub registry : List (RegisteredWorkspace Config)
  pub snapshot : FleetSnapshot Config
  pub clients : List String
  pub attached : List String
  pub recent_spawns : List (String × String)
  pub deadlines : List (String × String)
  pub emitted : List (Emission V)

unfoldable pub contains : String → List String → Bool
contains x [] = false
contains x (y ∷ ys) = if str_eq y x then true else contains x ys

module _ {Config : Type 0} where
  -- The workspace of a name, for reading.
  unfoldable pub find_workspace : String → List (Workspace Config) → Option (Workspace Config)
  find_workspace name ws = find (λ w. str_eq w.name name) ws

  -- The first workspace of a name, for writing.
  unfoldable pub update_workspace :
      String
      → (Workspace Config → Workspace Config)
      → List (Workspace Config)
      → List (Workspace Config)
  update_workspace name f [] = []
  update_workspace name f (w ∷ ws) =
      let rest = update_workspace name f ws in if str_eq w.name name then f w ∷ ws else w ∷ rest

  -- An agent found in one workspace, or what a later one has.
  unfoldable pub found_in :
      Workspace Config → Option Agent → Option (String × Agent) → Option (String × Agent)
  found_in w none later = later
  found_in w (some a) later = some (w.name, a)

  unfoldable pub find_in : String → List (Workspace Config) → Option (String × Agent)
  unfolding found_in
  find_in id [] = none
  find_in id (w ∷ ws) = found_in w (find (λ a. str_eq a.id id) w.agents) (find_in id ws)

  unfoldable pub find_agent : FleetSnapshot Config → String → Option (String × Agent)
  find_agent snap id = find_in id snap.workspaces

  -- `snapshot`: each workspace with the registry's current configuration.
  joined : Workspace Config → Option (RegisteredWorkspace Config) → Workspace Config
  joined w none = w
  joined w (some r) = record w { config = r.config }

-- The gate of `send_agent_input`: whose caliband the input goes to, or why it does not go.
agent_gate : String → Option (String × Agent) → Result String
agent_gate agent_id none = err (agent_not_found agent_id)
agent_gate agent_id (some (repo, a)) =
    if is_terminal a.status
    then err (invalid_state "send_input" agent_id "terminal")
    else (if not a.interactive
        then err (invalid_state "send_input" agent_id "not interactive")
        else ok repo)

module _ {V Config : Type 0} where
  unfoldable pub emit : Manager V Config → String → String → EventKind V → Manager V Config
  emit m repo agent_id kind = record m {
    emitted = m.emitted ++ (record { repo = repo; agent_id = agent_id; kind = kind } ∷ []);
  }

  unfoldable pub spawned_repo : Manager V Config → String → Option String → Result String
  spawned_repo m agent_id none = err (agent_not_found agent_id)
  spawned_repo m agent_id (some repo) = ok repo

  -- The repo of an agent found in the snapshot, or of one that was just spawned.
  unfoldable pub repo_found : Manager V Config → String → Option (String × Agent) → Result String
  unfolding spawned_repo
  repo_found m agent_id none = spawned_repo m agent_id (get agent_id m.recent_spawns)
  repo_found m agent_id (some (repo, a)) = ok repo

  unfoldable pub repo_of : Manager V Config → String → Result String
  unfolding repo_found
  repo_of m agent_id = repo_found m agent_id (find_agent m.snapshot agent_id)

  unfoldable pub input_gate : Manager V Config → String → Result String
  unfolding agent_gate
  input_gate m agent_id = agent_gate agent_id (find_agent m.snapshot agent_id)

  unfoldable pub served_snapshot : Manager V Config → FleetSnapshot Config
  unfolding joined
  served_snapshot m = record m.snapshot {
    workspaces =
        map (λ w. joined w (find (λ r. str_eq r.name w.name) m.registry)) m.snapshot.workspaces;
  }

unfoldable pub is_healthy : WorkspaceHealth → Bool
is_healthy healthy = true
is_healthy (unreachable reason) = false

pub record Readiness : Type 0 where
  pub ready : Bool
  pub store_writable : Bool
  pub workspaces_total : ℕ
  pub workspaces_healthy : ℕ
  pub workspaces_unreachable : ℕ

unfoldable pub readiness : {V Config : Type 0} → Manager V Config → Bool → Readiness
unfolding is_healthy
readiness m store_writable =
    let total = length m.snapshot.workspaces in
    let well = length (filter (λ w. is_healthy w.health) m.snapshot.workspaces) in
    record {
      ready = store_writable;
      store_writable = store_writable;
      workspaces_total = total;
      workspaces_healthy = well;
      workspaces_unreachable = total - well;
    }
