-- ===== src/K8s/Diff.antt =====
-- The verdicts that a pass of `spawn_watch_loop` of crates/core/src/k8s/fleet.rs carries forward, and what it
-- finds out against what was known.
pub mod View
pub mod Known
use prospero.Prelude.{
  Bool, true, false, not, ◌&&◌, ◌||◌, Option, none, some, List, [], ◌∷◌, ◌++◌, map, String, str_eq,
  if◌then◌else◌, filter, any, get, insert, remove,
}
use prospero.Error.{Result, ok, err}
use prospero.Model.{Agent, AgentStatus, is_terminal}
use prospero.Model.Change.{FleetChange, discovered, status_changed, gone, workspace_health}
use prospero.Caliband.Wire.{AgentRecord, domain_status}
use prospero.Fleet.Manager.{contains}
use prospero.Fleet.Reconcile.{same_status}
use prospero.Fleet.Control.{SpawnSpec}
use prospero.K8s.{CalibanTask, Condition}
use prospero.K8s.Task.{
  Endpoint, unix, tcp, AgentHandle, or_empty, handle_from, spawn_spec_from_task, agent_from_task,
}

-- A stream to open: the workspace, the task's name, where, and the spec to spawn from.
pub record ToAttach : Type 0 where
  pub repo : String
  pub id : String
  pub endpoint : Endpoint
  pub spec : SpawnSpec

-- The verdict that stands for an agent: a terminal status of the same incarnation.
unfoldable pub verdict : Option Agent → Agent → Option AgentStatus
verdict none a = none
verdict (some prev) a =
    if is_terminal prev.status && str_eq prev.started_at a.started_at
    then some prev.status
    else none

unfoldable pub settle :
    String → Option AgentStatus → List (String × AgentStatus) → List (String × AgentStatus)
settle id none m = m
settle id (some status) m = insert id status m

unfoldable pub settled :
    List (String × Agent) → List Agent → List (String × AgentStatus) → List (String × AgentStatus)
settled known [] m = m
settled known (a ∷ rest) m = settled known rest (settle a.id (verdict (get a.id known) a) m)

unfoldable pub carried : Agent → Option AgentStatus → Agent
carried a none = a
carried a (some status) = record a { status = status }

-- A verdict that stands is carried forward.
unfoldable pub carry : List (String × AgentStatus) → List Agent → List Agent
unfolding carried
carry verdicts agents = map (λ (a : Agent). carried a (get a.id verdicts)) agents

unfoldable pub by_id : List Agent → List (String × Agent) → List (String × Agent)
by_id [] m = m
by_id (a ∷ rest) m = by_id rest (insert a.id a m)

-- The diff under the lock, as far as it has come.
pub record Diff : Type 0 where
  pub known : List (String × Agent)
  pub seen : List String
  pub overlaid : List (String × Agent)
  pub changes : List FleetChange
  pub to_attach : List ToAttach

-- What an agent's change is, after what was known of it.
unfoldable pub change_of : String → Option Agent → Agent → List FleetChange
change_of name none a = discovered name a.workspace a ∷ []
change_of name (some prev) a =
    if not (same_status prev.status a.status)
    then status_changed name a.workspace prev.status a.status ∷ []
    else []

unfoldable pub attach_at : Agent → SpawnSpec → String → Option Endpoint → List ToAttach
attach_at a spec id none = []
attach_at a spec id (some e) =
    record { repo = a.workspace; id = id; endpoint = e; spec = spec } ∷ []

-- A malformed endpoint is passed over.
unfoldable pub attachable : Agent → SpawnSpec → Result (Option AgentHandle) → List ToAttach
attachable a spec (err e) = []
attachable a spec (ok none) = []
attachable a spec (ok (some h)) = attach_at a spec h.id h.endpoint

module _ (debug : String → String) where
  unfoldable pub observe_agent : Diff → CalibanTask → String → Option Agent → Diff
  observe_agent d t name none = record d { seen = name ∷ d.seen }
  observe_agent d t name (some a) = record {
    known = insert name a d.known;
    seen = name ∷ d.seen;
    overlaid = remove name d.overlaid;
    changes = d.changes ++ change_of name (get name d.known) a;
    to_attach =
        d.to_attach ++ attachable a (spawn_spec_from_task t) (handle_from debug t a.workspace);
  }

  unfoldable pub observe_named : Diff → CalibanTask → Option String → Diff
  observe_named d t none = d
  observe_named d t (some name) = observe_agent d t name (get name d.overlaid)

  unfoldable pub observe : Diff → List CalibanTask → Diff
  observe d [] = d
  observe d (t ∷ rest) = observe (observe_named d t t.metadata.name) rest

-- The agents that are listed no more.
unfoldable pub gone_of : List String → List (String × Agent) → List FleetChange
gone_of seen [] = []
gone_of seen ((name, a) ∷ rest) =
    let others = gone_of seen rest in
    if not (contains name seen) then gone name a.workspace ∷ others else others

unfoldable pub still_known : List String → List (String × Agent) → List (String × Agent)
still_known seen known = filter (λ (e : String × Agent). contains e.0 seen) known

-- The diff of a pass over what was known.
unfoldable pub diff :
    (debug : String → String) → List (String × Agent) → List CalibanTask → List Agent → Diff
diff debug known tasks agents =
    let d =
      observe debug
        (record {
          known = known;
          seen = [];
          overlaid = by_id agents [];
          changes = [];
          to_attach = [];
        })
        tasks in
    record d { known = still_known d.seen d.known; changes = d.changes ++ gone_of d.seen d.known }
