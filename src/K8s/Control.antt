-- ===== src/K8s/Control.antt =====
-- `FleetProvider` of `K8sFleet`, crates/core/src/k8s/fleet.rs. What the API server answers to each call is an
-- argument, the answers of a loop as a list that ends at its deadline; `writes` are the calls that
-- write, in order, the refused one too.
pub mod Groups
pub mod Restart
use prospero.Prelude.{
  ℕ, zero, suc, Bool, true, false, not, ◌&&◌, Option, none, some, List, [], ◌∷◌, ◌++◌, map, String,
  if◌then◌else◌, get, insert, remove,
}
use prospero.Error.{CoreError, Result, ok, err, unwrap_or, agent_not_found, invalid_state, fleet}
use prospero.Model.{Agent, healthy}
use prospero.Caliband.Wire.{AgentRecord}
use prospero.Fleet.Manager.{Workspace, FleetSnapshot}
use prospero.K8s.{CalibanTask, WorkspaceCr}
use prospero.K8s.Task.{
  TaskSpec, AgentHandle, Endpoint, tcp, unix, task_name, build_calibantask, new_metadata, or_empty,
  handle_from, agent_from_task, workspace_view,
}
use prospero.K8s.Overlay.{Pods, overlay_pod_status}
use prospero.K8s.Plane.{Plane, stop, PodAgentError, terminal, transient}

pub data Write : Type 0 where
  applied : CalibanTask → Write
  deleted : String → Write

-- `existed` is the answer to the read, `apply` the answer to the write.
unfoldable pub ensured :
    TaskSpec
    → String
    → Result (Option CalibanTask)
    → (apply : Result (Unit {0})) → List Write × Result AgentHandle
ensured spec name (err e) apply = ([], err e)
ensured spec name (ok existing) (err e) = (applied (build_calibantask spec name) ∷ [], err e)
ensured spec name (ok existing) (ok _) = (
  applied (build_calibantask spec name) ∷ [],
  ok (record {
    id = name;
    workspace = spec.workspace;
    endpoint = none;
    created = elim existing [ none ↦ true | some old ↦ false ];
  }),
)

unfoldable pub ensure_agent :
    (sha256_hex : String → String)
    → TaskSpec
    → (read : String → Result (Option CalibanTask)) (apply : Result (Unit {0}))
    → List Write × Result AgentHandle
ensure_agent sha256_hex spec read apply =
    let name = task_name sha256_hex spec in ensured spec name (read name) apply

-- crates/core/src/model.rs
pub data DrainPolicy : Type 0 where
  kill : DrainPolicy
  graceful : (timeout_ms : ℕ) → DrainPolicy

-- The wait of a graceful stop; a task that is still there at the deadline is no error.
unfoldable pub drained : List (Result (Option CalibanTask)) → Result (Unit {0})
drained [] = ok tt
drained (err e ∷ reads) = err e
drained (ok none ∷ reads) = ok tt
drained (ok (some t) ∷ reads) = drained reads

deleted_then :
    DrainPolicy
    → (delete : Result (Unit {0})) → List (Result (Option CalibanTask))
    → Result (Unit {0})
deleted_then kill delete reads = delete
deleted_then (graceful timeout_ms) (err e) reads = err e
deleted_then (graceful timeout_ms) (ok _) reads = drained reads

unfoldable pub stop_agent :
    Plane
    → (in_time : Bool) → String
    → DrainPolicy
    → (delete : Result (Unit {0})) → List (Result (Option CalibanTask))
    → Plane × List Write × Result (Unit {0})
unfolding deleted_then
stop_agent p in_time id drain delete reads =
    (stop p id in_time, deleted id ∷ [], deleted_then drain delete reads)

unfoldable pub remove_agent :
    Plane
    → (in_time : Bool) → String
    → (delete : Result (Unit {0})) → Plane × List Write × Result (Unit {0})
remove_agent p in_time id delete = (stop p id in_time, deleted id ∷ [], delete)

-- The task of the same name and spec, with no status yet.
unfoldable pub fresh_task : String → CalibanTask → CalibanTask
fresh_task name old = record { metadata = new_metadata name; spec = old.spec; status = none }

-- The wait for the old task to be gone.
unfoldable pub reapplied :
    String
    → CalibanTask
    → List (Result (Option CalibanTask))
    → (apply : Result (Unit {0})) → List Write × Result String
reapplied name old [] apply = ([], err (fleet name))
reapplied name old (err e ∷ reads) apply = ([], err e)
reapplied name old (ok (some t) ∷ reads) apply = reapplied name old reads apply
reapplied name old (ok none ∷ reads) (err e) = (applied (fresh_task name old) ∷ [], err e)
reapplied name old (ok none ∷ reads) (ok _) = (applied (fresh_task name old) ∷ [], ok name)

after_delete :
    String
    → CalibanTask
    → (delete : Result (Unit {0})) → List (Result (Option CalibanTask))
    → (apply : Result (Unit {0})) → List Write × Result String
after_delete name old (err e) reads apply = (deleted name ∷ [], err e)
after_delete name old (ok _) reads apply =
    let (writes, result) = reapplied name old reads apply in (deleted name ∷ writes, result)

unfoldable pub restarted_from :
    Plane
    → (in_time : Bool) → String
    → Result (Option CalibanTask)
    → (delete : Result (Unit {0})) → List (Result (Option CalibanTask))
    → (apply : Result (Unit {0})) → Plane × List Write × Result String
unfolding after_delete
restarted_from p in_time name (err e) delete reads apply = (p, [], err e)
restarted_from p in_time name (ok none) delete reads apply = (p, [], err (agent_not_found name))
restarted_from p in_time name (ok (some old)) delete reads apply =
    let (writes, result) = after_delete name old delete reads apply in
    (stop p name in_time, writes, result)

-- `read` is the first read's answer, `reads` those after the delete, up to the deadline.
unfoldable pub restart_agent :
    Plane
    → (in_time : Bool) → String
    → (read : Result (Option CalibanTask)) (delete : Result (Unit {0}))
    → (reads : List (Result (Option CalibanTask))) (apply : Result (Unit {0}))
    → Plane × List Write × Result String
restart_agent p in_time name read delete reads apply =
    restarted_from p in_time name read delete reads apply

unfoldable pub or_nil : Option (List Agent) → List Agent
or_nil none = []
or_nil (some agents) = agents

-- The agents by the workspace that they refer to.
unfoldable pub by_workspace : List Agent → List (String × List Agent) → List (String × List Agent)
by_workspace [] m = m
by_workspace (a ∷ rest) m =
    by_workspace rest (insert a.workspace (or_nil (get a.workspace m) ++ (a ∷ [])) m)

module _ {Config : Type 0} (config : Config) where
  unfoldable pub workspaces_of :
      List WorkspaceCr → List (String × List Agent) → List (Workspace Config)
  workspaces_of [] m = []
  workspaces_of (ws ∷ rest) m =
      let name = or_empty ws.metadata.name in
      workspace_view config ws (or_nil (get name m)) ∷ workspaces_of rest (remove name m)

  -- `registered` is the registry's list, where one is wired.
  unfoldable pub snapshot_of :
      List Agent → Option (Result (List WorkspaceCr)) → FleetSnapshot Config
  snapshot_of agents (some (ok registered)) = record {
    host = "k8s";
    workspaces = workspaces_of registered (by_workspace agents []);
  }
  snapshot_of agents _ = record {
    host = "k8s";
    workspaces =
        record {
          name = "k8s";
          root = "";
          sources = [];
          health = healthy;
          config = config;
          agents = agents;
        }
        ∷ [];
  }

  unfoldable pub snapshot :
      (debug : String → String)
      → Pods
      → (listed : Result (List CalibanTask)) → Option (Result (List WorkspaceCr))
      → FleetSnapshot Config
  snapshot debug pods listed registered =
      let tasks = unwrap_or listed [] in
      snapshot_of
        (overlay_pod_status debug pods tasks (map agent_from_task tasks)
          (λ (name : String). true)).0
        registered

is_ok : {A : Type 0} → Result A → Bool
is_ok (ok a) = true
is_ok (err e) = false

pub record Readiness : Type 0 where
  pub ready : Bool
  pub store_writable : Bool
  pub workspaces_total : ℕ
  pub workspaces_healthy : ℕ
  pub workspaces_unreachable : ℕ

unfoldable pub readiness : (store_writable : Bool) (listed : Result (List CalibanTask)) → Readiness
unfolding is_ok
readiness store_writable listed =
    let api_ok = is_ok listed in
    record {
      ready = store_writable && api_ok;
      store_writable = store_writable;
      workspaces_total = 1;
      workspaces_healthy = if api_ok then 1 else 0;
      workspaces_unreachable = if api_ok then 0 else 1;
    }

-- The address that an input is delivered to by way of the pod's caliband, or why there is none.
input_at : String → Result (Option AgentHandle) → Result String
input_at id (err e) = err e
input_at id (ok none) = err (invalid_state "send_input" id "not attachable")
input_at id (ok (some h)) = elim h.endpoint [
  | some (tcp addr) ↦ ok addr
  | _ ↦ err (fleet "k8s agent endpoint is not Tcp")
]

unfoldable pub input_endpoint :
    (debug : String → String) → String → Result (Option CalibanTask) → Result String
unfolding input_at
input_endpoint debug id (err e) = err e
input_endpoint debug id (ok none) = err (agent_not_found id)
input_endpoint debug id (ok (some task)) = input_at id (handle_from debug task "k8s")
