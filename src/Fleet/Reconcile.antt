-- ===== src/Fleet/Reconcile.antt =====
-- The first half of `reconcile` of crates/core/src/fleet.rs: what caliband lists against what the
-- snapshot has, and the snapshot that is written. The statuses before the poll are in the order of the snapshot, where the code's map has none of its own.
pub mod Diff
use prospero.Prelude.{
  ◌≡◌, refl, ℕ, ◌==◌, Bool, true, false, not, ◌&&◌, Option, none, some, List, [], ◌∷◌, ◌++◌, map,
  String, str_eq, if◌then◌else◌, any, filter, get, insert, remove, Option-cases, arith,
}
use prospero.Error.{CoreError, Result, ok, err, unwrap_or}
use prospero.Model.{Agent, AgentStatus, WorkspaceHealth, healthy, unreachable, is_terminal}
use prospero.Model.Event.{
  FleetEvent, EventKind, agent_discovered, status_changed, agent_gone, agent_timed_out, repo_health,
  stream_key_for,
}
use prospero.Caliband.Wire.{AgentRecord, domain_status, domain_posture}
use prospero.Deadline.{deadline_in, expired}
use prospero.Fleet.Manager.{
  Workspace, Manager, Emission, contains, find_workspace, update_workspace, emit, is_healthy,
}

AgentStatus-discrete : Discrete AgentStatus
AgentStatus-discrete = hlevel

unfoldable pub same_status : AgentStatus → AgentStatus → Bool
unfolding AgentStatus-discrete
same_status a b = elim (AgentStatus-discrete a b) [ yes e ↦ true | no e ↦ false ]

-- Two statuses that pass for the same are.
pub same_status-eq : (a b : AgentStatus) → same_status a b ≡ true → a ≡ b
unfolding same_status
same_status-eq a b h = ground arith

unfoldable pub same_health : WorkspaceHealth → WorkspaceHealth → Bool
same_health healthy healthy = true
same_health (unreachable a) (unreachable b) = str_eq a b
same_health _ _ = false

unfoldable pub agent_from : String → AgentRecord → Agent
agent_from repo r = record {
  id = r.id;
  name = r.name;
  workspace = repo;
  status = domain_status r.status;
  started_at = r.started_at;
  isolated = r.isolation_worktree;
  interactive = r.interactive;
  session_dir = r.session_dir;
  permission_posture = domain_posture r.permission_posture;
  reason = none;
  detail = none;
}

-- The statuses of a workspace's agents, by id: of two agents with one id the last has its place.
unfoldable pub statuses : List Agent → List (String × AgentStatus) → List (String × AgentStatus)
statuses [] prior = prior
statuses (a ∷ rest) prior = statuses rest (insert a.id a.status prior)

unfoldable pub agents_of : {Config : Type 0} → Option (Workspace Config) → List Agent
agents_of none = []
agents_of (some w) = w.agents

-- The event that an agent of caliband's list stands for, after what was known of it.
unfoldable pub observed :
    {V : Type 0} → (own attached : Bool) → Option AgentStatus → AgentStatus → Option (EventKind V)
observed own attached none now = if own && not attached then some agent_discovered else none
observed own attached (some old) now =
    if own && not (same_status old now) then some (status_changed old now) else none

module _ {V Config : Type 0} where
  unfoldable pub workspace_agents : Manager V Config → String → List Agent
  unfolding agents_of
  workspace_agents m repo = agents_of (find_workspace repo m.snapshot.workspaces)

  unfoldable pub emit_some :
      Manager V Config → String → String → Option (EventKind V) → Manager V Config
  emit_some m repo id none = m
  emit_some m repo id (some kind) = emit m repo id kind

  -- The loop over caliband's list: the events, in its order.
  unfoldable pub emit_observed :
      Manager V Config
      → String
      → Bool
      → List String
      → List (String × AgentStatus)
      → List AgentRecord
      → Manager V Config
  emit_observed m repo own attached prior [] = m
  emit_observed m repo own attached prior (r ∷ rest) =
      emit_observed
        (emit_some m repo r.id
          (observed own (contains r.id attached) (get r.id prior) (domain_status r.status)))
        repo own attached prior rest

  -- The loop over the agents that were known: one that is no longer listed is gone.
  unfoldable pub emit_gone :
      Manager V Config
      → String
      → Bool
      → List AgentRecord
      → List (String × AgentStatus)
      → Manager V Config
  emit_gone m repo own records [] = m
  emit_gone m repo own records ((id, status) ∷ rest) =
      let gone = own && not (any (λ (r : AgentRecord). str_eq r.id id) records) in
      emit_gone (if gone then emit m repo id agent_gone else m) repo own records rest

  unfoldable pub set_workspace :
      Manager V Config → String → (Workspace Config → Workspace Config) → Manager V Config
  set_workspace m repo f = record m {
    snapshot = record m.snapshot { workspaces = update_workspace repo f m.snapshot.workspaces };
  }

  -- The health event of a workspace that is in the snapshot and was not healthy.
  unfoldable pub recovered :
      Manager V Config → String → Bool → Option (Workspace Config) → Manager V Config
  recovered m repo own none = m
  recovered m repo own (some w) =
      if own && not (is_healthy w.health) then emit m repo "" (repo_health healthy) else m

  -- The snapshot takes the listed agents.
  unfoldable pub write_snapshot :
      Manager V Config → String → Bool → List AgentRecord → Manager V Config
  unfolding recovered
  write_snapshot m repo own records =
      recovered
        (set_workspace m repo
          (λ w. record w { health = healthy; agents = map (agent_from repo) records }))
        repo own (find_workspace repo m.snapshot.workspaces)

  -- An agent that the poll has seen needs no spawn-tracking; an empty list changes nothing.
  unfoldable pub prune_spawns : Manager V Config → List AgentRecord → Manager V Config
  prune_spawns m records = record m {
    recent_spawns =
        filter (λ (p : String × String). not (any (λ (r : AgentRecord). str_eq r.id p.0) records))
          m.recent_spawns;
  }

  -- The events of the list against what was known.
  unfoldable pub emit_diff : Manager V Config → String → Bool → List AgentRecord → Manager V Config
  emit_diff m repo own records =
      let prior = statuses (workspace_agents m repo) [] in
      emit_gone (emit_observed m repo own m.attached prior records) repo own records prior
