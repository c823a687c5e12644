-- ===== src/K8s/Watch.antt =====
-- `spawn_watch_loop` of crates/core/src/k8s/fleet.rs: one pass over the listed tasks, and what it leaves. A
-- map is an association list. What the pods answer, whether the observer's lease is had, which histories
-- can be read and for which agents an append succeeds (throughout a pass) is an argument. `log` is the
-- store's: what `Emitter::emit` cannot append is only logged there.
pub mod Follows
pub mod Outcomes
use prospero.Prelude.{
  Bool, true, false, not, ◌&&◌, ◌||◌, Option, none, some, List, [], ◌∷◌, ◌++◌, map, String, str_eq,
  if◌then◌else◌, filter, any, get, insert, remove,
}
use prospero.Error.{Result, ok, err}
use prospero.Model.{Agent, AgentStatus, is_terminal}
use prospero.Model.Event.{EventKind}
use prospero.Model.Change.{FleetChange, discovered, status_changed, gone, workspace_health}
use prospero.Caliband.Wire.{AgentRecord, domain_status}
use prospero.Fleet.Manager.{Emission, contains}
use prospero.Fleet.Reconcile.{same_status}
use prospero.Fleet.Control.{SpawnSpec}
use prospero.K8s.{CalibanTask, Condition}
use prospero.K8s.Overlay.{
  Pods, agent_endpoint, is_some, overlaid, overlay_agents, overlay_pod_status, pod_of, record_of,
  refresh, refreshed,
}
use prospero.K8s.Diff.{
  Diff, ToAttach, attach_at, attachable, by_id, carried, carry, change_of, diff, gone_of, observe,
  observe_agent, observe_named, settle, settled, still_known, verdict,
}
use prospero.K8s.Task.{
  Endpoint, unix, tcp, AgentHandle, or_empty, handle_from, spawn_spec_from_task, agent_from_task,
  agents_settled_condition,
}

-- The loop's own variables, the shared map `known`, the marks of the session plane and the log.
pub record Watch (V : Type 0) : Type 0 where
  pub known : List (String × Agent)
  pub last_uids : List (String × String)
  pub terminal_recorded : List String
  pub terminal : List String
  pub log : List (Emission V)

-- Names whose uid is another than in the last pass.
is_recreated : Option String → String → Bool
is_recreated none uid = false
is_recreated (some prev) uid = not (str_eq prev uid)

unfoldable pub recreated_names : List (String × String) → List (String × String) → List String
unfolding is_recreated
recreated_names last_uids [] = []
recreated_names last_uids ((name, uid) ∷ rest) =
    let others = recreated_names last_uids rest in
    if is_recreated (get name last_uids) uid then name ∷ others else others

put_uid : Option String → Option String → List (String × String) → List (String × String)
put_uid none uid uids = uids
put_uid (some name) uid uids = insert name (or_empty uid) uids

unfoldable pub current_uids : List CalibanTask → List (String × String) → List (String × String)
unfolding put_uid
current_uids [] uids = uids
current_uids (t ∷ rest) uids = current_uids rest (put_uid t.metadata.name t.metadata.uid uids)

module _ {V : Type 0} where
  -- An event that ends an agent's run, for the tally of outcomes.
  unfoldable pub is_outcome : EventKind V → Bool
  is_outcome (EventKind.status_changed from to) = is_terminal to
  is_outcome _ = false

  unfoldable pub has_outcome : String → List (Emission V) → Bool
  has_outcome id log = any (λ (e : Emission V). str_eq e.agent_id id && is_outcome e.kind) log

  -- Whether an outcome is on record; a history that cannot be read counts as having none. Either way
  -- it is not asked for again.
  unfoldable pub already_recorded_terminal :
      (readable : String → Bool) → Watch V → String → Bool × Watch V
  already_recorded_terminal readable w id = if contains id w.terminal_recorded then (true, w) else (
    readable id && has_outcome id w.log,
    record w { terminal_recorded = id ∷ w.terminal_recorded },
  )

  -- The emission of a transition: it is on record if the append succeeds, and lost if not.
  unfoldable pub record_change :
      (stores : String → Bool) (id workspace : String) (from to : AgentStatus) → Watch V → Watch V
  record_change stores id workspace from to w =
      if stores id
      then record w {
        log =
            w.log
            ++ (record { repo = workspace; agent_id = id; kind = EventKind.status_changed from to }
                ∷ []);
      }
      else w

  unfoldable pub emit_change : (readable stores : String → Bool) → Watch V → FleetChange → Watch V
  emit_change readable stores w (discovered id workspace a) = w
  emit_change readable stores w (gone id workspace) = w
  emit_change readable stores w (workspace_health workspace state) = w
  emit_change readable stores w (status_changed id workspace from to) =
      let (recorded, w') = already_recorded_terminal readable w id in
      if is_terminal to
      then (if recorded then w' else record_change stores id workspace from to w')
      else record_change stores id workspace from to w

  unfoldable pub emit_changes :
      (readable stores : String → Bool) → Watch V → List FleetChange → Watch V
  emit_changes readable stores w [] = w
  emit_changes readable stores w (c ∷ rest) =
      emit_changes readable stores (emit_change readable stores w c) rest

  unfoldable pub forget_terminal : String → Watch V → Watch V
  forget_terminal id w = record w {
    terminal = filter (λ (t : String). not (str_eq t id)) w.terminal;
  }

  unfoldable pub forget_gone : Watch V → List FleetChange → Watch V
  forget_gone w [] = w
  forget_gone w (gone id workspace ∷ rest) = forget_gone (forget_terminal id w) rest
  forget_gone w (discovered id workspace a ∷ rest) = forget_gone w rest
  forget_gone w (status_changed id workspace from to ∷ rest) = forget_gone w rest
  forget_gone w (workspace_health workspace state ∷ rest) = forget_gone w rest

  unfoldable pub forget_all : Watch V → List String → Watch V
  forget_all w [] = w
  forget_all w (name ∷ rest) = forget_all (forget_terminal name w) rest

  -- A process that starts again: the log is all that stays.
  unfoldable pub restarted : Watch V → Watch V
  restarted w = record {
    known = [];
    last_uids = [];
    terminal_recorded = [];
    terminal = [];
    log = w.log;
  }

-- The conditions to report.
unfoldable pub observed_conditions : List (String × AgentStatus) → List (String × Condition)
observed_conditions statuses =
    map (λ (e : String × AgentStatus). (e.0, agents_settled_condition (e.1 ∷ []))) statuses

-- What a pass meets.
pub record Pass : Type 0 where
  pub listed : Result (List CalibanTask)
  pub pods : Pods
  pub observes : Bool
  pub readable : String → Bool
  pub stores : String → Bool

-- What a pass gives out: to the subscribers, to the tasks' conditions, to the session plane.
pub record Report : Type 0 where
  pub changes : List FleetChange
  pub conditions : List (String × Condition)
  pub to_attach : List ToAttach

module _ {V : Type 0} (debug : String → String) where
  unfoldable pub pass_over :
      (pods : Pods) (observes : Bool) (readable stores : String → Bool)
      → Watch V
      → List CalibanTask
      → Watch V × Report
  pass_over pods observes readable stores w tasks =
      let uids = current_uids tasks [] in
      let agents = map agent_from_task tasks in
      let verdicts = settled w.known agents [] in
      let (overlay, statuses) =
        overlay_pod_status debug pods tasks agents
          (λ (name : String). not (is_some (get name verdicts))) in
      let d = diff debug w.known tasks (carry verdicts overlay) in
      let seen = record w { known = d.known; last_uids = uids } in
      let emitted = if observes then emit_changes readable stores seen d.changes else seen in
      (
        forget_all (forget_gone emitted d.changes) (recreated_names w.last_uids uids),
        record {
          changes = d.changes;
          conditions = if observes then observed_conditions statuses else [];
          to_attach = d.to_attach;
        },
      )

  -- A list that fails changes nothing.
  unfoldable pub pass_listed : Watch V → Pass → Result (List CalibanTask) → Watch V × Report
  pass_listed w p (err e) = (w, record { changes = []; conditions = []; to_attach = [] })
  pass_listed w p (ok tasks) = pass_over p.pods p.observes p.readable p.stores w tasks

  unfoldable pub pass : Watch V → Pass → Watch V × Report
  pass w p = pass_listed w p p.listed
