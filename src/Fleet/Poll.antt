-- ===== src/Fleet/Poll.antt =====
-- The poll of crates/core/src/fleet.rs: attach tasks, deadlines, and `reconcile` as a whole. The leases
-- that this replica can take, the agents' histories, the clock, the outcome of a kill and what caliband
-- lists are arguments.
pub mod Effect
pub mod Settled
use prospero.Prelude.{
  ◌≡◌, refl, ℕ, ◌==◌, Bool, true, false, not, ◌&&◌, Option, none, some, List, [], ◌∷◌, ◌++◌, map,
  String, str_eq, if◌then◌else◌, any, filter, get, insert, remove, Option-cases,
}
use prospero.Error.{CoreError, Result, ok, err, unwrap_or}
use prospero.Model.{Agent, AgentStatus, WorkspaceHealth, healthy, unreachable, is_terminal}
use prospero.Model.Event.{FleetEvent, EventKind, agent_timed_out, repo_health, stream_key_for}
use prospero.Caliband.Wire.{AgentRecord, domain_status}
use prospero.Deadline.{deadline_in, expired}
use prospero.Fleet.Manager.{Workspace, Manager, contains, find_workspace, emit}
use prospero.Fleet.Reconcile.{
  same_health, workspace_agents, set_workspace, emit_diff, write_snapshot, prune_spawns,
}

unfoldable pub to_attach : List String → List AgentRecord → List String
to_attach attached [] = []
to_attach attached (r ∷ rest) =
    let later = to_attach attached rest in
    if not (is_terminal (domain_status r.status)) && not (contains r.id attached)
    then r.id ∷ later
    else later

-- A deadline that is not known is read back from the agent's history.
unfoldable pub with_deadline :
    List (String × String) → String → Bool → Option String → Option String → List (String × String)
with_deadline deadlines id terminal known none = deadlines
with_deadline deadlines id true known (some deadline) = deadlines
with_deadline deadlines id false (some raw) (some deadline) = deadlines
with_deadline deadlines id false none (some deadline) = insert id deadline deadlines

unfoldable pub fill_deadlines :
    {V : Type 0} (history : String → Result (List (FleetEvent V)))
    → String
    → List Agent
    → List (String × String)
    → List (String × String)
fill_deadlines history repo [] deadlines = deadlines
fill_deadlines history repo (a ∷ rest) deadlines = fill_deadlines history repo rest (
    with_deadline deadlines a.id (is_terminal a.status) (get a.id deadlines)
      (deadline_in (unwrap_or (history (stream_key_for repo a.id)) [])))

module _ {V Config : Type 0} where
  -- The attach task itself is that of Fleet/Attach.
  unfoldable pub start_attach : Manager V Config → (String → Bool) → String → Manager V Config
  start_attach m acquires id =
      if contains id m.attached
      then m
      else (if acquires id then record m { attached = id ∷ m.attached } else m)

  unfoldable pub start_all : Manager V Config → (String → Bool) → List String → Manager V Config
  start_all m acquires [] = m
  start_all m acquires (id ∷ ids) = start_all (start_attach m acquires id) acquires ids

  unfoldable pub after_kill : Manager V Config → String → Result (Unit {0}) → Manager V Config
  after_kill m id (ok done) = record m { deadlines = remove id m.deadlines }
  after_kill m id (err e) = m

  unfoldable pub time_out :
      Manager V Config
      → String
      → (kill : String → Result (Unit {0})) → List (String × String)
      → Manager V Config
  unfolding after_kill
  time_out m repo kill [] = m
  time_out m repo kill ((id, deadline) ∷ rest) =
      time_out (after_kill (emit m repo id (agent_timed_out deadline)) id (kill id)) repo kill rest

  unfoldable pub enforce_deadlines :
      Manager V Config
      → String
      → (parse : String → Option ℕ) (now : ℕ) (history : String → Result (List (FleetEvent V)))
        (kill : String → Result (Unit {0}))
      → Manager V Config
  enforce_deadlines m repo parse now history kill =
      let agents = workspace_agents m repo in
      let deadlines = fill_deadlines history repo agents m.deadlines in
      time_out (record m { deadlines = deadlines }) repo kill (expired parse now deadlines agents)

  unfoldable pub reconcile :
      Manager V Config
      → String
      → Bool
      → (acquires : String → Bool)
      → (parse : String → Option ℕ) (now : ℕ) (history : String → Result (List (FleetEvent V)))
        (kill : String → Result (Unit {0}))
      → List AgentRecord
      → Manager V Config
  reconcile m repo own acquires parse now history kill records =
      let written = write_snapshot (emit_diff m repo own records) repo own records in
      let attached =
        start_all (prune_spawns written records) acquires (to_attach m.attached records) in
      if own then enforce_deadlines attached repo parse now history kill else attached

  -- A poll that fails.
  marked :
      Manager V Config
      → String
      → WorkspaceHealth
      → Bool
      → Option (Workspace Config)
      → Manager V Config
  marked m repo found own none = m
  marked m repo found own (some w) =
      let set = set_workspace m repo (λ w. record w { health = found }) in
      if same_health w.health found
      then m
      else (if own then emit set repo "" (repo_health found) else set)

  unfoldable pub mark_unreachable : Manager V Config → String → String → Bool → Manager V Config
  unfolding marked
  mark_unreachable m repo reason own =
      marked m repo (unreachable reason) own (find_workspace repo m.snapshot.workspaces)

  -- A client that was found is kept.
  unfoldable pub with_client : Manager V Config → String → Manager V Config
  with_client m repo =
      if contains repo m.clients then m else record m { clients = repo ∷ m.clients }

  -- `poll_repo_once`, by the outcome of finding caliband and then of listing its agents. A failed list
  -- drops the client.
  unfoldable pub poll_repo_once :
      Manager V Config
      → String
      → (acquires : String → Bool)
      → (parse : String → Option ℕ) (now : ℕ) (history : String → Result (List (FleetEvent V)))
        (kill : String → Result (Unit {0})) (describe : CoreError → String)
      → Result (Result (List AgentRecord))
      → Manager V Config
  unfolding with_client
  poll_repo_once m repo acquires parse now history kill describe (err e) =
      mark_unreachable m repo (describe e) (acquires (stream_key_for repo ""))
  poll_repo_once m repo acquires parse now history kill describe (ok (err e)) =
      mark_unreachable (record m { clients = filter (λ c. not (str_eq c repo)) m.clients }) repo
        (describe e) (acquires (stream_key_for repo ""))
  poll_repo_once m repo acquires parse now history kill describe (ok (ok records)) =
      reconcile (with_client m repo) repo (acquires (stream_key_for repo "")) acquires parse now
        history kill records
