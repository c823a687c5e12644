-- ===== src/Fleet/Control.antt =====
-- The commands of `FleetManager` of crates/core/src/fleet.rs on agents: spawn, input, kill, respawn and
-- removal. What a workspace's caliband answers, the clock and prosperod's environment are arguments.
pub mod Spawned
use prospero.Prelude.{
  ℕ, ◌==◌, Bool, true, false, not, ◌&&◌, Option, none, some, List, String, str_eq, if◌then◌else◌,
  find, filter, length, insert, remove,
}
use prospero.Error.{Result, ok, err, ◌>>=◌, workspace_not_found, provider_misconfigured}
use prospero.Model.{PermissionPosture, supervised}
use prospero.Model.Event.{agent_spawned, agent_gone, deadline_set, stream_key_for}
use prospero.Caliband.Wire.{WirePermissionPosture, wire_posture}
use prospero.Provider.{RepoProviderConfig, Misconfigured, resolve_env, validate_provider_env}
use prospero.Deadline.{deadline_from}
use prospero.Registry.{RegisteredWorkspace}
use prospero.Fleet.Manager.{Workspace, Manager, find_workspace, emit, repo_of, input_gate}
use prospero.Fleet.Reconcile.{set_workspace}
use prospero.Fleet.Poll.{start_attach, with_client}

pub record SpawnRequest : Type 0 where
  pub prompt : String
  pub label : Option String
  pub model : Option String
  pub isolation_worktree : Bool
  pub tool_allowlist : Option (List String)
  pub interactive : Bool
  pub frontmatter_path : Option String
  pub timeout_secs : Option ℕ
  pub provider_ref : Option String
  pub permission_posture : PermissionPosture

unfoldable pub new_request : String → SpawnRequest
new_request prompt = record {
  prompt = prompt;
  label = none;
  model = none;
  isolation_worktree = true;
  tool_allowlist = none;
  interactive = false;
  frontmatter_path = none;
  timeout_secs = none;
  provider_ref = none;
  permission_posture = supervised;
}

-- The fields of caliband's spec that the source fills from the request; the others are constants.
pub record SpawnSpec : Type 0 where
  pub label : Option String
  pub frontmatter_path : Option String
  pub initial_prompt : String
  pub model : Option String
  pub provider : Option String
  pub tool_allowlist : Option (List String)
  pub isolation_worktree : Bool
  pub inherit_hooks : Bool
  pub interactive : Bool
  pub permission_posture : WirePermissionPosture

unfoldable pub into_spec : SpawnRequest → SpawnSpec
into_spec req = record {
  label = req.label;
  frontmatter_path = req.frontmatter_path;
  initial_prompt = req.prompt;
  model = req.model;
  provider = none;
  tool_allowlist = req.tool_allowlist;
  isolation_worktree = req.isolation_worktree;
  inherit_hooks = true;
  interactive = req.interactive;
  permission_posture = wire_posture req.permission_posture;
}

-- What a spawn meets: prosperod's environment and the wording of a refusal, whether there is a client
-- for the workspace, what caliband answers to the spec, the time, the last moment of a DateTime
-- and the rendering of one, the leases.
pub record SpawnEnv : Type 0 where
  pub default_env : List (String × String)
  pub process_env : String → Option String
  pub explain : Misconfigured → String
  pub client : Result (Unit {0})
  pub spawn : SpawnSpec → Result String
  pub now : ℕ
  pub latest : ℕ
  pub render : ℕ → String
  pub acquires : String → Bool

config_of : Option (RegisteredWorkspace RepoProviderConfig) → Option RepoProviderConfig
config_of none = none
config_of (some r) = some r.config

checked : (Misconfigured → String) → Option Misconfigured → Result (Unit {0})
checked explain none = ok tt
checked explain (some why) = err (provider_misconfigured (explain why))

unfoldable pub validate_env : SpawnEnv → String → Option RepoProviderConfig → Result (Unit {0})
unfolding checked
validate_env env repo none = err (workspace_not_found repo)
validate_env env repo (some cfg) =
    checked env.explain
      (validate_provider_env cfg (resolve_env env.default_env cfg env.process_env))

provider_of : Option RepoProviderConfig → Option String
provider_of none = none
provider_of (some cfg) = cfg.provider

module _ {V : Type 0} where
  unfoldable pub repo_config : Manager V RepoProviderConfig → String → Option RepoProviderConfig
  unfolding config_of
  repo_config m repo = config_of (find (λ r. str_eq r.name repo) m.registry)

  -- A deadline is remembered and recorded.
  unfoldable pub note_deadline :
      Manager V RepoProviderConfig → String → String → Option String → Manager V RepoProviderConfig
  note_deadline m repo id none = m
  note_deadline m repo id (some deadline) =
      emit (record m { deadlines = insert id deadline m.deadlines }) repo id (deadline_set deadline)

  -- With the deadline, if the reckoning of it has not panicked.
  unfoldable pub spawned_by :
      Manager V RepoProviderConfig
      → SpawnEnv
      → String
      → String
      → Option (Option String)
      → Manager V RepoProviderConfig × Option (Result String)
  spawned_by m env repo id none = (m, none)
  spawned_by m env repo id (some deadline) =
      (start_attach (note_deadline m repo id deadline) env.acquires id, some (ok id))

  -- After caliband's answer. There is no result, `none`, if the request ends in the panic of an
  -- impossible deadline: the tracking and `AgentSpawned` are there then, and nothing after them.
  unfoldable pub spawned :
      Manager V RepoProviderConfig
      → SpawnEnv
      → String
      → Option ℕ
      → Result String
      → Manager V RepoProviderConfig × Option (Result String)
  spawned m env repo timeout_secs (err e) = (m, some (err e))
  spawned m env repo timeout_secs (ok id) =
      let tracked = record m { recent_spawns = insert id repo m.recent_spawns } in
      spawned_by (emit tracked repo id agent_spawned) env repo id
        (deadline_from env.render env.latest env.now timeout_secs)

  -- After the check of the provider and the search for a client, which is kept.
  unfoldable pub spawn_with :
      Manager V RepoProviderConfig
      → SpawnEnv
      → String
      → SpawnRequest
      → Result (Unit {0})
      → Result (Unit {0})
      → Manager V RepoProviderConfig × Option (Result String)
  unfolding provider_of
  spawn_with m env repo req (err e) client = (m, some (err e))
  spawn_with m env repo req (ok valid) (err e) = (m, some (err e))
  spawn_with m env repo req (ok valid) (ok found) =
      spawned (with_client m repo) env repo req.timeout_secs
        (env.spawn (record (into_spec req) { provider = provider_of (repo_config m repo) }))

  unfoldable pub spawn_agent :
      Manager V RepoProviderConfig
      → SpawnEnv
      → String
      → SpawnRequest
      → Manager V RepoProviderConfig × Option (Result String)
  spawn_agent m env repo req =
      spawn_with m env repo req (validate_env env repo (repo_config m repo)) env.client

-- Whether the workspace has the agent, before it is pruned.
has_agent : {Config : Type 0} → String → Option (Workspace Config) → Bool
has_agent agent_id none = false
has_agent agent_id (some w) =
    not (length (filter (λ a. not (str_eq a.id agent_id)) w.agents) == length w.agents)

module _ {V Config : Type 0} where
  -- `call` is the request to the caliband of a repo, with the search for its client.
  unfoldable pub kill_agent :
      Manager V Config → (call : String → Result (Unit {0})) → String → Result (Unit {0})
  kill_agent m call agent_id = repo_of m agent_id >>= call

  unfoldable pub respawn_agent :
      Manager V Config → (call : String → Result String) → String → Result String
  respawn_agent m call agent_id = repo_of m agent_id >>= call

  unfoldable pub send_agent_input :
      Manager V Config → (call : String → Result (Unit {0})) → String → Result (Unit {0})
  send_agent_input m call agent_id = input_gate m agent_id >>= call

  -- After caliband has removed the agent: it leaves the snapshot, and the holder of the lease says so.
  unfoldable pub pruned : Manager V Config → (String → Bool) → String → String → Manager V Config
  unfolding has_agent
  pruned m acquires repo agent_id =
      let forgotten = record m { recent_spawns = remove agent_id m.recent_spawns } in
      let dropped =
        set_workspace forgotten repo
          (λ w. record w { agents = filter (λ a. not (str_eq a.id agent_id)) w.agents }) in
      let removed = has_agent agent_id (find_workspace repo m.snapshot.workspaces) in
      if removed && acquires (stream_key_for repo "")
      then emit dropped repo agent_id agent_gone
      else dropped

  unfoldable pub remove_from :
      Manager V Config
      → (String → Bool)
      → String
      → String
      → Result (Unit {0})
      → Manager V Config × Result (Unit {0})
  remove_from m acquires agent_id repo (err e) = (m, err e)
  remove_from m acquires agent_id repo (ok done) = (pruned m acquires repo agent_id, ok tt)

  unfoldable pub remove_found :
      Manager V Config
      → (String → Bool)
      → (call : String → Result (Unit {0})) → String
      → Result String
      → Manager V Config × Result (Unit {0})
  remove_found m acquires call agent_id (err e) = (m, err e)
  remove_found m acquires call agent_id (ok repo) = remove_from m acquires agent_id repo (call repo)

  unfoldable pub rm_agent :
      Manager V Config
      → (String → Bool)
      → (call : String → Result (Unit {0})) → String
      → Manager V Config × Result (Unit {0})
  rm_agent m acquires call agent_id = remove_found m acquires call agent_id (repo_of m agent_id)
