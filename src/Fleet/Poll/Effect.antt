-- ===== src/Fleet/Poll/Effect.antt =====
-- What a poll does to the snapshot and to the spawns that are tracked.
use prospero.Prelude.{
  ◌≡◌, refl, sym, ap, subst, ◌∙◌, ℕ, Bool, not, Option, none, some, List, [], ◌∷◌, map, any, filter,
  String, str_eq, if◌then◌else◌, if_lem, if_cases, arith,
}
use prospero.Error.{Result, ok, err}
use prospero.Model.{AgentStatus, healthy}
use prospero.Model.Event.{FleetEvent, EventKind}
use prospero.Caliband.Wire.{AgentRecord}
use prospero.Fleet.Manager.{
  FleetSnapshot, Workspace, Manager, find_workspace, update_workspace, contains, emit,
}
use prospero.Fleet.Reconcile.{
  statuses, agent_from, workspace_agents, emit_some, emit_observed, emit_gone, emit_diff, recovered,
  set_workspace, write_snapshot, prune_spawns,
}
use prospero.Fleet.Poll.{
  start_attach, start_all, after_kill, time_out, enforce_deadlines, reconcile,
}

mapped : {A B : Type 0} → (A → B) → Option A → Option B
mapped f none = none
mapped f (some a) = some (f a)

find-update :
    {Config : Type 0} (name : String) (f : Workspace Config → Workspace Config)
    (w : Workspace Config) (ws : List (Workspace Config))
    → ((v : Workspace Config) → (f v).name ≡ v.name)
    → find_workspace name ws ≡ some w
    → find_workspace name (update_workspace name f ws) ≡ some (f w)
unfolding find_workspace update_workspace mapped
find-update name f w [] k h = ground arith
find-update name f w (v ∷ ws) k h =
    if_cases (λ l. find_workspace name l ≡ some (f w)) (str_eq v.name name)
      (λ e.
        subst (λ b. (if b then some (f v) else find_workspace name ws) ≡ some (f w))
          (sym (ap (λ n. str_eq n name) (k v) ∙ e))
          (ap (mapped f)
            (subst (λ b. (if b then some v else find_workspace name ws) ≡ some w) e h)))
      (λ e. rw e (
        find-update name f w ws k
          (subst (λ b. (if b then some v else find_workspace name ws) ≡ some w) e h)))

-- What the later steps of a poll leave alone.
abbrev view : {V Config : Type 0} → Manager V Config → FleetSnapshot Config × List (String × String)
view m = (m.snapshot, m.recent_spawns)

module _ {V Config : Type 0} (repo : String) where
  emit_some-view :
      (id : String) (o : Option (EventKind V)) (m : Manager V Config)
      → view (emit_some m repo id o) ≡ view m
  unfolding emit_some emit
  emit_some-view id none m = refl
  emit_some-view id (some kind) m = refl

  emit_observed-view :
      (own : Bool) (attached : List String) (prior : List (String × AgentStatus))
      (records : List AgentRecord) (m : Manager V Config)
      → view (emit_observed m repo own attached prior records) ≡ view m
  unfolding emit_observed emit_some emit
  emit_observed-view own attached prior [] m = refl
  emit_observed-view own attached prior (r ∷ rest) m =
      emit_observed-view own attached prior rest _ ∙ emit_some-view r.id _ m

  emit_gone-view :
      (own : Bool) (records : List AgentRecord) (prior : List (String × AgentStatus))
      (m : Manager V Config)
      → view (emit_gone m repo own records prior) ≡ view m
  unfolding emit_gone emit
  emit_gone-view own records [] m = refl
  emit_gone-view own records ((k, s) ∷ rest) m =
      emit_gone-view own records rest _
      ∙ if_lem (λ (m' : Manager V Config). view m' ≡ view m) _ refl refl

  start_all-view :
      (acquires : String → Bool) (ids : List String) (m : Manager V Config)
      → view (start_all m acquires ids) ≡ view m
  unfolding start_all start_attach
  start_all-view acquires [] m = refl
  start_all-view acquires (id ∷ ids) m =
      start_all-view acquires ids _
      ∙ if_lem (λ (m' : Manager V Config). view m' ≡ view m) (contains id m.attached) refl
          (if_lem (λ (m' : Manager V Config). view m' ≡ view m) (acquires id) refl refl)

  after_kill-view :
      (id : String) (o : Result (Unit {0})) (m : Manager V Config)
      → view (after_kill m id o) ≡ view m
  unfolding after_kill
  after_kill-view id (ok done) m = refl
  after_kill-view id (err e) m = refl

  time_out-view :
      (kill : String → Result (Unit {0})) (due : List (String × String)) (m : Manager V Config)
      → view (time_out m repo kill due) ≡ view m
  unfolding time_out emit
  time_out-view kill [] m = refl
  time_out-view kill ((id, d) ∷ rest) m = time_out-view kill rest _ ∙ after_kill-view id (kill id) _

  emit_diff-view :
      (own : Bool) (records : List AgentRecord) (m : Manager V Config)
      → view (emit_diff m repo own records) ≡ view m
  unfolding emit_diff
  emit_diff-view own records m =
      let prior = statuses (workspace_agents m repo) [] in
      emit_gone-view own records prior _ ∙ emit_observed-view own m.attached prior records m

  recovered-view :
      (own : Bool) (o : Option (Workspace Config)) (m : Manager V Config)
      → view (recovered m repo own o) ≡ view m
  unfolding recovered emit
  recovered-view own none m = refl
  recovered-view own (some w) m = if_lem (λ (m' : Manager V Config). view m' ≡ view m) _ refl refl

-- The workspace as a poll writes it.
abbrev pub as_listed :
    {Config : Type 0} → String → List AgentRecord → Workspace Config → Workspace Config
as_listed repo records w = record w { health = healthy; agents = map (agent_from repo) records }

abbrev pub unlisted : List AgentRecord → String × String → Bool
unlisted records p = not (any (λ (r : AgentRecord). str_eq r.id p.0) records)

module _ {V Config : Type 0} (repo : String) (acquires : String → Bool) (parse : String → Option ℕ)
    (now : ℕ) (history : String → Result (List (FleetEvent V)))
    (kill : String → Result (Unit {0})) where
  -- The view after the snapshot is written and the tracked spawns are pruned, from the view before.
  abbrev after_poll :
      List AgentRecord
      → FleetSnapshot Config × List (String × String)
      → FleetSnapshot Config × List (String × String)
  after_poll records (snap, spawns) = (
    record snap { workspaces = update_workspace repo (as_listed repo records) snap.workspaces },
    filter (unlisted records) spawns,
  )

  -- A poll writes the listed agents to the first workspace of the name and forgets the tracked spawns
  -- that are listed.
  reconcile-view :
      (own : Bool) (records : List AgentRecord) (m : Manager V Config)
      → view (reconcile m repo own acquires parse now history kill records)
        ≡ after_poll records (view m)
  unfolding reconcile enforce_deadlines prune_spawns write_snapshot set_workspace
  reconcile-view own records m =
      let diff = emit_diff m repo own records in
      let written = write_snapshot diff repo own records in
      if_lem (λ (m' : Manager V Config). view m' ≡ view (prune_spawns written records)) own
        (time_out-view repo kill _ _ ∙ start_all-view repo acquires _ _)
        (start_all-view repo acquires _ _)
      ∙ ap
          (λ (v : FleetSnapshot Config × List (String × String)).
            (v.0, filter (unlisted records) v.1))
          (recovered-view repo own _ (set_workspace diff repo (as_listed repo records)))
      ∙ ap (after_poll records) (emit_diff-view repo own records m)

  pub reconcile-find :
      (own : Bool) (records : List AgentRecord) (w : Workspace Config) (m : Manager V Config)
      → find_workspace repo m.snapshot.workspaces ≡ some w
      → find_workspace repo
          (reconcile m repo own acquires parse now history kill records).snapshot.workspaces
        ≡ some (as_listed repo records w)
  reconcile-find own records w m h =
      ap (λ (v : FleetSnapshot Config × List (String × String)). find_workspace repo v.0.workspaces)
        (reconcile-view own records m)
      ∙ find-update repo (as_listed repo records) w m.snapshot.workspaces (λ v. refl) h

  pub reconcile-spawns :
      (own : Bool) (records : List AgentRecord) (m : Manager V Config)
      → (reconcile m repo own acquires parse now history kill records).recent_spawns
        ≡ filter (unlisted records) m.recent_spawns
  reconcile-spawns own records m =
      ap (λ (v : FleetSnapshot Config × List (String × String)). v.1) (reconcile-view own records m)
