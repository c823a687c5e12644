-- ===== src/Tests/Cluster.antt =====
-- The Kubernetes fleet: a task `ct-1` of the workspace `w`, whose pod tells that its agent is over.
use prospero.Prelude.{
  ◌≤◌, ◌≡◌, refl, true, false, none, some, List, [], ◌∷◌, String, arith, In, inl, inr, ◌⊎◌, get,
}
use prospero.Error.{ok}
use prospero.Model.{Agent, supervised, running}
use prospero.Fleet.Manager.{contains}
use prospero.Caliband.Wire.{AgentRecord, WireAgentStatus, WirePermissionPosture}
use prospero.K8s.{CalibanTask, WorkspaceCr}
use prospero.Model.Change.{discovered, gone}
use prospero.K8s.Overlay.{Pods}
use prospero.K8s.Watch.{Watch, pass_over, restarted}
use prospero.K8s.Diff.View.{Agrees, apply_all}
use prospero.K8s.Watch.Follows.{pass_over-Agrees}
use prospero.K8s.Watch.Outcomes.{Happening, passing, crashing, live, outcomes, live_once}
use prospero.K8s.Plane.{AttachTask, Plane, reserve, has_entry, end_task}
use prospero.K8s.Plane.Slots.{reserving, ending, Reach, here, next, empty, slots_held, stale_end}
use prospero.K8s.Stream.{Heard, watch_fleet}
use prospero.K8s.Stream.Lost.{rediscovery_lost}
use prospero.K8s.Control.{restart_agent}
use prospero.K8s.Control.Restart.{restart_agent-Outcome}

abbrev show : String → String
show s = s

abbrev task : CalibanTask
task = record {
  metadata = record { name = some "ct-1"; uid = some "u1"; creation_timestamp = some "t0" };
  spec = record {
    workspace_ref = "w";
    provider_ref = none;
    task = record {
      prompt = "fix it";
      agent_type = none;
      interactive = none;
      permission_posture = none;
    };
    isolation = none;
    tools = none;
  };
  status = some (record {
    phase = "Running";
    caliband_endpoint = some "pod:1";
    sandbox_ref = none;
    resolved_workspace = none;
    conditions = [];
    permission_posture = none;
  });
}

abbrev rec : AgentRecord
rec = record {
  id = "a1";
  name = "ct-1";
  status = WireAgentStatus.done;
  started_at = "t0";
  session_dir = "";
  isolation_worktree = false;
  interactive = true;
  permission_posture = WirePermissionPosture.supervised;
}

abbrev pods : Pods
pods addr = some rec

abbrev agent : Agent
agent = record {
  id = "ct-1";
  name = "ct-1";
  workspace = "w";
  status = running;
  started_at = "t0";
  isolated = false;
  interactive = false;
  session_dir = "";
  permission_posture = supervised;
  reason = none;
  detail = none;
}

abbrev watch : Watch (Unit {0})
watch = record {
  known = ("ct-1", agent) ∷ [];
  last_uids = ("ct-1", "u1") ∷ [];
  terminal_recorded = [];
  terminal = [];
  log = [];
}

agrees : Agrees (("ct-1", running) ∷ []) watch.known
unfolding get
agrees id = ground arith

pass_over-Agrees_example :
    Agrees
      (apply_all
        (("ct-1", running) ∷ [])
        (pass_over show pods true
          (λ (k : String). true)
          (λ (k : String). true)
          watch
          (task ∷ [])).1.changes)
      (pass_over show pods true
        (λ (k : String). true)
        (λ (k : String). true)
        watch
        (task ∷ [])).0.known
pass_over-Agrees_example =
    (pass_over-Agrees show pods watch (task ∷ []) true (λ (k : String). true) (λ (k : String). true)
      (("ct-1", running) ∷ []) agrees).0

abbrev life : List Happening
life =
    passing (record {
      listed = ok (task ∷ []);
      pods = pods;
      observes = true;
      readable = λ (k : String). true;
      stores = λ (k : String). true;
    })
    ∷ crashing
    ∷ passing (record {
      listed = ok (task ∷ []);
      pods = pods;
      observes = true;
      readable = λ (k : String). true;
      stores = λ (k : String). false;
    })
    ∷ []

live_once_example : outcomes "ct-1" (live show (restarted watch) life).log ≤ 1
live_once_example = (live_once show watch life "ct-1" (λ k. refl, (λ k. refl, tt)) (omega arith)).1

abbrev attached_once : Reach empty (end_task (reserve empty "ct-1") "ct-1" 0 (inr "a1"))
unfolding reserve has_entry get
attached_once = next (next here (reserving "ct-1")) (ending "ct-1" 0 (inr "a1") (inl refl))

slots_held_example :
    let p = end_task (reserve empty "ct-1") "ct-1" 0 (inr "a1") in
    (get "ct-1" p.attached ≡ none)
    ⊎ ((t : AttachTask) × (get "ct-1" p.attached ≡ some t) × In ("ct-1", t.generation) p.running)
slots_held_example =
    slots_held (end_task (reserve empty "ct-1") "ct-1" 0 (inr "a1")) "ct-1" attached_once

abbrev replaced : Plane
replaced = record {
  attached = ("ct-1", record { abort = true; generation = 1 }) ∷ [];
  generation = 2;
  terminal = [];
  held = "ct-1" ∷ [];
  running = ("ct-1", 1) ∷ ("ct-1", 0) ∷ [];
}

stale_end_example : contains "ct-1" (end_task replaced "ct-1" 0 (inr "a1")).held ≡ false
unfolding get
stale_end_example =
    (stale_end replaced "ct-1" 0 (inr "a1") (record { abort = true; generation = 1 }) refl
      (λ e. absurd (omega (arith, e)))).1

abbrev workspace : String → WorkspaceCr
workspace name = record {
  metadata = record { name = some name; uid = none; creation_timestamp = none };
  spec = record {
    display_name = name;
    sources = [];
    providers = [];
    default_provider = none;
    env = [];
    isolation = none;
  };
}

restart_agent-Outcome_example :
    get "ct-1"
      (restart_agent replaced true "ct-1"
        (ok (some task))
        (ok tt)
        (ok (some task) ∷ ok none ∷ [])
        (ok tt)).0.attached
    ≡ none
restart_agent-Outcome_example =
    (restart_agent-Outcome replaced true "ct-1" task (ok (some task) ∷ ok none ∷ []) (ok tt)).0

rediscovery_lost_example :
    get "ct-1" (
      apply_all [] (
        watch_fleet
          (("ct-1", agent) ∷ [])
          (Heard.told (gone "ct-1" "w") ∷ Heard.told (discovered "ct-1" "w" agent) ∷ [])))
    ≡ none
unfolding get
rediscovery_lost_example = rediscovery_lost (("ct-1", agent) ∷ []) [] "ct-1" "w" agent agent refl
