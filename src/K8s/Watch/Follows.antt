-- ===== src/K8s/Watch/Follows.antt =====
-- A pass as a whole, for those who follow the fleet.
use prospero.Prelude.{
  ◌≡◌, refl, sym, ap, ◌∙◌, Bool, not, Option, none, some, List, [], ◌∷◌, map, String, if◌then◌else◌,
  if_lem, get, arith,
}
use prospero.Model.{Agent, AgentStatus}
use prospero.K8s.{CalibanTask}
use prospero.K8s.Task.{agent_from_task}
use prospero.Model.Change.{FleetChange, discovered, status_changed, gone, workspace_health}
use prospero.K8s.Overlay.{Pods, is_some, overlay_pod_status, overlay_agents, overlaid, record_of}
use prospero.K8s.Diff.{by_id, settled, carried, carry, diff}
use prospero.K8s.Watch.{
  Watch, emit_change, emit_changes, forget_terminal, forget_gone, forget_all, pass_over,
  already_recorded_terminal, record_change,
}
use prospero.K8s.Diff.View.{View, Agrees, status_at, apply_all, diff-Agrees}
use prospero.K8s.Diff.Known.{lists, SameIds, agent_from_task-SameIds, map-SameIds, known-diff}

module _ {V : Type 0} where
  known-emit_changes :
      (readable stores : String → Bool) (w : Watch V) (cs : List FleetChange)
      → (emit_changes readable stores w cs).known ≡ w.known
  unfolding emit_changes emit_change already_recorded_terminal record_change
  known-emit_changes readable stores w [] = refl
  known-emit_changes readable stores w (discovered id workspace a ∷ rest) =
      known-emit_changes readable stores w rest
  known-emit_changes readable stores w (gone id workspace ∷ rest) =
      known-emit_changes readable stores w rest
  known-emit_changes readable stores w (workspace_health workspace state ∷ rest) =
      known-emit_changes readable stores w rest
  known-emit_changes readable stores w (status_changed id workspace from to ∷ rest) =
      known-emit_changes readable stores
        (emit_change readable stores w (status_changed id workspace from to)) rest
      ∙ ground arith

  known-forget_gone : (w : Watch V) (cs : List FleetChange) → (forget_gone w cs).known ≡ w.known
  unfolding forget_gone forget_terminal
  known-forget_gone w [] = refl
  known-forget_gone w (discovered id workspace a ∷ rest) = known-forget_gone w rest
  known-forget_gone w (status_changed id workspace from to ∷ rest) = known-forget_gone w rest
  known-forget_gone w (gone id workspace ∷ rest) = known-forget_gone (forget_terminal id w) rest
  known-forget_gone w (workspace_health workspace state ∷ rest) = known-forget_gone w rest

  known-forget_all : (w : Watch V) (names : List String) → (forget_all w names).known ≡ w.known
  unfolding forget_all forget_terminal
  known-forget_all w [] = refl
  known-forget_all w (name ∷ rest) = known-forget_all (forget_terminal name w) rest

overlaid-id :
    (pods : Pods) (endpoints : List (String × String)) (a : Agent)
    → (overlaid a (record_of pods (get a.id endpoints))).id ≡ a.id
unfolding overlaid
overlaid-id pods endpoints a = ground arith

carried-id : (a : Agent) (o : Option AgentStatus) → (carried a o).id ≡ a.id
unfolding carried
carried-id a none = refl
carried-id a (some status) = refl

module _ {V : Type 0} (debug : String → String) (pods : Pods) (w : Watch V)
    (tasks : List CalibanTask) where
  -- The agents as a pass shows them: a verdict that stands, or else what the pod says, or else the
  -- task's phase.
  abbrev pub shown : List Agent
  shown =
      let agents = map agent_from_task tasks in
      let verdicts = settled w.known agents [] in
      carry verdicts
        (overlay_pod_status debug pods tasks agents
          (λ (name : String). not (is_some (get name verdicts)))).0

  shown-SameIds : SameIds shown tasks
  unfolding carry overlay_pod_status overlay_agents
  shown-SameIds =
      map-SameIds _ (λ a. carried-id a (get a.id _)) _ tasks
        (map-SameIds _ (overlaid-id pods _) _ tasks (agent_from_task-SameIds tasks))

  known-pass_over :
      (observes : Bool) (readable stores : String → Bool)
      → (pass_over debug pods observes readable stores w tasks).0.known
        ≡ (diff debug w.known tasks shown).known
  unfolding pass_over
  known-pass_over observes readable stores =
      let d = diff debug w.known tasks shown in
      known-forget_all _ _
      ∙ known-forget_gone _ d.changes
      ∙ if_lem (λ (x : Watch V). x.known ≡ d.known) observes
          (known-emit_changes readable stores _ d.changes) refl

  -- A subscriber who applies the changes of a pass, in their order, to a view that agreed with what was
  -- known has a view that agrees with what is known after it; and what is known then is the listed
  -- tasks, each as the pass shows it, and no others. So it is with or without the observer's lease.
  pub pass_over-Agrees :
      (observes : Bool) (readable stores : String → Bool) (v : View)
      → Agrees v w.known
      → let (w', report) = pass_over debug pods observes readable stores w tasks in
        Agrees (apply_all v report.changes) w'.known
        × ((id : String)
            → get id w'.known ≡ (if lists id tasks then get id (by_id shown []) else none))
  unfolding pass_over
  pass_over-Agrees observes readable stores v h = (
    λ id.
        diff-Agrees debug v w.known tasks shown h id
        ∙ ap (λ k. status_at (get id k)) (sym (known-pass_over observes readable stores)),
    λ id.
        ap (get id) (known-pass_over observes readable stores)
        ∙ known-diff debug w.known tasks shown id shown-SameIds,
  )
