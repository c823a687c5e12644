-- ===== src/Fleet/Workspaces.antt =====
-- The workspaces that `FleetManager` of crates/core/src/fleet.rs manages: registering, removing and
-- configuring one, and the refresh from the shared config store. The answers of the config store, the
-- sources that are found under a root and the poll that follows are arguments.
pub mod Mirror
use prospero.Prelude.{
  ℕ, Bool, true, false, not, Option, none, some, List, [], ◌∷◌, ◌++◌, map, String, str_eq,
  if◌then◌else◌, any, filter,
}
use prospero.Error.{CoreError, Result, ok, err, workspace_not_found, provider_misconfigured}
use prospero.Model.{healthy}
use prospero.Provider.{RepoProviderConfig, Misconfigured, validate_provider_config}
use prospero.Registry.{RegisteredWorkspace, get, add, remove, set_config}
use prospero.Fleet.Manager.{Source, Workspace, Manager}

-- A workspace that no poll has looked at.
unfoldable pub fresh :
    {Config : Type 0}
    → (discover : String → List Source) → RegisteredWorkspace Config
    → Workspace Config
fresh discover r = record {
  name = r.name;
  root = r.root;
  sources = discover r.root;
  health = healthy;
  config = r.config;
  agents = [];
}

unfoldable pub has_workspace : {Config : Type 0} → String → List (Workspace Config) → Bool
has_workspace name ws = any (λ w. str_eq w.name name) ws

unfoldable pub push_missing :
    {Config : Type 0}
    → (discover : String → List Source) → List (Workspace Config)
    → RegisteredWorkspace Config
    → List (Workspace Config)
push_missing discover ws r = if has_workspace r.name ws then ws else ws ++ (fresh discover r ∷ [])

unfoldable pub push_registered :
    {Config : Type 0}
    → (discover : String → List Source) → List (Workspace Config)
    → List (RegisteredWorkspace Config)
    → List (Workspace Config)
push_registered discover ws [] = ws
push_registered discover ws (r ∷ rest) = push_registered discover (push_missing discover ws r) rest

module _ {V Config : Type 0} (discover : String → List Source) where
  -- The manager as it is built from the stored registry.
  unfoldable pub with_seams : String → List (RegisteredWorkspace Config) → Manager V Config
  with_seams host registered = record {
    registry = registered;
    snapshot = record { host = host; workspaces = map (fresh discover) registered };
    clients = [];
    attached = [];
    recent_spawns = [];
    deadlines = [];
    emitted = [];
  }

  set_workspaces : Manager V Config → List (Workspace Config) → Manager V Config
  set_workspaces m ws = record m { snapshot = record m.snapshot { workspaces = ws } }

  -- A failed read keeps the cached view. Otherwise the registry is the stored one; a workspace that is
  -- no longer registered goes, a new one comes, and the others stay as they are.
  unfoldable pub refresh_registry_from_store :
      Manager V Config → Result (List (RegisteredWorkspace Config)) → Manager V Config
  unfolding set_workspaces
  refresh_registry_from_store m (err e) = m
  refresh_registry_from_store m (ok durable) =
      let kept =
        filter
          (λ (w : Workspace Config).
            any (λ (d : RegisteredWorkspace Config). str_eq d.name w.name) durable)
          m.snapshot.workspaces in
      set_workspaces (record m { registry = durable }) (push_registered discover kept durable)

  -- `poll_all_once` over a poll of each name.
  poll_names :
      (String → Manager V Config → Manager V Config)
      → List (RegisteredWorkspace Config)
      → Manager V Config
      → Manager V Config
  poll_names poll [] m = m
  poll_names poll (r ∷ rest) m = poll_names poll rest (poll r.name m)

  unfoldable pub poll_all_once :
      (String → Manager V Config → Manager V Config)
      → Manager V Config
      → Result (List (RegisteredWorkspace Config))
      → Manager V Config
  unfolding poll_names
  poll_all_once poll m durable =
      let refreshed = refresh_registry_from_store m durable in
      poll_names poll refreshed.registry refreshed

  -- After the registry has dropped the name: its durable row goes first.
  dropped :
      Manager V Config
      → String
      → Bool
      → (delete : Result (Unit {0})) → Manager V Config × Result Bool
  unfolding set_workspaces
  dropped m name false delete = (m, ok false)
  dropped m name true (err e) = (m, err e)
  dropped m name true (ok done) = (
    set_workspaces (record m { clients = filter (λ c. not (str_eq c name)) m.clients })
        (filter (λ (w : Workspace Config). not (str_eq w.name name)) m.snapshot.workspaces),
    ok true,
  )

  unfoldable pub remove_repo :
      Manager V Config → String → (delete : Result (Unit {0})) → Manager V Config × Result Bool
  unfolding dropped
  remove_repo m name delete =
      let (registry', removed) = remove m.registry name in
      dropped (record m { registry = registry' }) name removed delete

module _ {V : Type 0} (discover : String → List Source) (explain : Misconfigured → String) where
  -- The durable row, and the snapshot's entry if it has none, and a first poll.
  stored :
      Manager V RepoProviderConfig
      → (poll : Manager V RepoProviderConfig → Manager V RepoProviderConfig)
      → RegisteredWorkspace RepoProviderConfig
      → (upsert : Result (Unit {0})) → Manager V RepoProviderConfig × Result (Unit {0})
  stored m poll r (err e) = (m, err e)
  stored m poll r (ok done) = (
    poll (record m {
      snapshot = record m.snapshot { workspaces = push_missing discover m.snapshot.workspaces r };
    }),
    ok tt,
  )

  -- After the registry has taken the name and the root, or not.
  registered :
      Manager V RepoProviderConfig
      → (poll : Manager V RepoProviderConfig → Manager V RepoProviderConfig) → (name root : String)
      → RepoProviderConfig
      → (upsert added : Result (Unit {0})) → Manager V RepoProviderConfig × Result (Unit {0})
  unfolding stored
  registered m poll name root config upsert (err e) = (m, err e)
  registered m poll name root config upsert (ok done) =
      let (registry', found) = set_config m.registry name config in
      stored (record m { registry = registry' }) poll
        (record { name = name; root = root; config = config }) upsert

  checked_add :
      Manager V RepoProviderConfig
      → (poll : Manager V RepoProviderConfig → Manager V RepoProviderConfig)
      → (default : RepoProviderConfig) (render : String → String → String) → (name root : String)
      → RepoProviderConfig
      → (upsert : Result (Unit {0})) → Option Misconfigured
      → Manager V RepoProviderConfig × Result (Unit {0})
  unfolding registered
  checked_add m poll default render name root config upsert (some why) =
      (m, err (provider_misconfigured (explain why)))
  checked_add m poll default render name root config upsert none =
      let (registry', added) = add default render m.registry name root in
      registered (record m { registry = registry' }) poll name root config upsert added

  -- `root` is canonical.
  unfoldable pub add_workspace_with_config :
      Manager V RepoProviderConfig
      → (poll : Manager V RepoProviderConfig → Manager V RepoProviderConfig)
      → (default : RepoProviderConfig) (render : String → String → String) → (name root : String)
      → RepoProviderConfig
      → (upsert : Result (Unit {0})) → Manager V RepoProviderConfig × Result (Unit {0})
  unfolding checked_add
  add_workspace_with_config m poll default render name root config upsert =
      checked_add m poll default render name root config upsert (validate_provider_config config)

  checked_set :
      Manager V RepoProviderConfig
      → String
      → RepoProviderConfig
      → (upsert : Result (Unit {0})) → Option Misconfigured
      → Manager V RepoProviderConfig × Result (Unit {0})
  checked_set m repo config upsert (some why) = (m, err (provider_misconfigured (explain why)))
  checked_set m repo config upsert none =
      let (registry', found) = set_config m.registry repo config in
      if found
      then (record m { registry = registry' }, upsert)
      else (m, err (workspace_not_found repo))

  unfoldable pub set_repo_config_registry_only :
      Manager V RepoProviderConfig
      → String
      → RepoProviderConfig
      → (upsert : Result (Unit {0})) → Manager V RepoProviderConfig × Result (Unit {0})
  unfolding checked_set
  set_repo_config_registry_only m repo config upsert =
      checked_set m repo config upsert (validate_provider_config config)
