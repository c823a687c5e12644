-- ===== src/Fleet/Control/Spawned.antt =====
-- That an agent can be found from its spawn on, until a poll has seen it and after.
use prospero.Prelude.{
  ◌≡◌, refl, sym, ap, subst, ◌∙◌, ℕ, Bool, true, false, not, Option, none, some, List, [], ◌∷◌, map,
  String, str_eq, eq_iff, if◌then◌else◌, if_lem, if_cases, find, filter, get, arith, Bool-cases,
  inl, inr, get-insert,
}
use prospero.Error.{Result, ok}
use prospero.Model.{Agent}
use prospero.Model.Event.{FleetEvent}
use prospero.Caliband.Wire.{AgentRecord}
use prospero.Provider.{RepoProviderConfig}
use prospero.Fleet.Manager.{
  Workspace, Manager, find_workspace, find_in, found_in, find_agent, repo_found, repo_of, contains,
  emit, spawned_repo,
}
use prospero.Fleet.Reconcile.{agent_from}
use prospero.Fleet.Reconcile.Diff.{is_there, status_of, any-status_of}
use prospero.Fleet.Poll.{start_attach, reconcile}
use prospero.Fleet.Poll.Effect.{as_listed, unlisted, reconcile-find, reconcile-spawns}
use prospero.Fleet.Control.{SpawnEnv, note_deadline, spawned_by, spawned}

-- An entry that the filter keeps by its key is read as before.
get-filter :
    (k : String) (p : String × String → Bool) (m : List (String × String))
    → ((v : String) → p (k, v) ≡ true)
    → get k (filter p m) ≡ get k m
unfolding get
get-filter k p [] h = refl
get-filter k p ((j, v) ∷ rest) h =
    let rec = get-filter k p rest h in
    if_cases (λ l. get k l ≡ (if str_eq j k then some v else get k rest)) (p (j, v))
      (λ kept. ap (λ o. if str_eq j k then some v else o) rec)
      (λ cut. elim (Bool-cases (str_eq j k)) [
        | inl e ↦
            let same : j ≡ k = ground (arith, eq_iff j k, e) in
            absurd (ground (arith, h v, subst (λ i. p (i, v) ≡ false) same cut))
        | inr e ↦ rw e rec
      ])

-- An agent of a list read from caliband is found in the workspace.
find-listed :
    (repo id : String) (records : List AgentRecord)
    → is_there (status_of id records) ≡ true
    → is_there (find (λ (a : Agent). str_eq a.id id) (map (agent_from repo) records)) ≡ true
unfolding agent_from
find-listed repo id [] h = ground arith
find-listed repo id (r ∷ rest) h = elim (Bool-cases (str_eq r.id id)) [
  | inl e ↦ rw e refl
  | inr e ↦ rw e (find-listed repo id rest (ground (arith, e, h)))
]

found_there :
    {Config : Type 0} (w : Workspace Config) (o : Option Agent) (later : Option (String × Agent))
    → is_there o ≡ true
    → is_there (found_in w o later) ≡ true
unfolding found_in
found_there w none later h = ground arith
found_there w (some a) later h = refl

later_there :
    {Config : Type 0} (w : Workspace Config) (o : Option Agent) (later : Option (String × Agent))
    → is_there later ≡ true
    → is_there (found_in w o later) ≡ true
unfolding found_in
later_there w none later h = h
later_there w (some a) later h = refl

in_workspace : {Config : Type 0} → String → Option (Workspace Config) → Bool
in_workspace id none = false
in_workspace id (some w) = is_there (find (λ (a : Agent). str_eq a.id id) w.agents)

-- What one workspace has, the snapshot has.
find_in_found :
    {Config : Type 0} (id name : String) (w : Workspace Config) (ws : List (Workspace Config))
    → find_workspace name ws ≡ some w
    → is_there (find (λ (a : Agent). str_eq a.id id) w.agents) ≡ true
    → is_there (find_in id ws) ≡ true
unfolding find_workspace find_in in_workspace
find_in_found id name w [] h k = ground arith
find_in_found id name w (v ∷ ws) h k = elim (Bool-cases (str_eq v.name name)) [
  | inl e ↦
      let same : some v ≡ some w =
        subst (λ b. (if b then some v else find_workspace name ws) ≡ some w) e h in
      found_there v _ (find_in id ws) (subst (λ o. in_workspace id o ≡ true) (sym same) k)
  | inr e ↦ later_there v (find (λ (a : Agent). str_eq a.id id) v.agents) (find_in id ws) (
      find_in_found id name w ws
        (subst (λ b. (if b then some v else find_workspace name ws) ≡ some w) e h) k)
]

-- The agent's repo can be found.
abbrev pub IsFound : {V Config : Type 0} → Manager V Config → String → Type 0
IsFound m id = (repo : String) × (repo_of m id ≡ ok repo)

module _ {V Config : Type 0} where
  snapshot-IsFound :
      (m : Manager V Config) (id : String) (o : Option (String × Agent))
      → is_there o ≡ true
      → (repo : String) × (repo_found m id o ≡ ok repo)
  unfolding repo_found
  snapshot-IsFound m id none h = ground arith
  snapshot-IsFound m id (some (repo, a)) h = (repo, refl)

  tracked-IsFound :
      (m : Manager V Config) (id repo : String) (o : Option (String × Agent))
      → get id m.recent_spawns ≡ some repo
      → (repo : String) × (repo_found m id o ≡ ok repo)
  unfolding repo_found spawned_repo
  tracked-IsFound m id repo none h = (repo, rw h refl)
  tracked-IsFound m id repo (some (repo', a)) h = (repo', refl)

module _ {V : Type 0} (env : SpawnEnv) (repo : String) (timeout_secs : Option ℕ) where
  note_deadline-spawns :
      (m : Manager V RepoProviderConfig) (id : String) (o : Option String)
      → (note_deadline m repo id o).recent_spawns ≡ m.recent_spawns
  unfolding note_deadline emit
  note_deadline-spawns m id none = refl
  note_deadline-spawns m id (some deadline) = refl

  start_attach-spawns :
      (m : Manager V RepoProviderConfig) (id : String)
      → (start_attach m env.acquires id).recent_spawns ≡ m.recent_spawns
  unfolding start_attach
  start_attach-spawns m id =
      let P = λ (m' : Manager V RepoProviderConfig). m'.recent_spawns ≡ m.recent_spawns in
      if_lem P (contains id m.attached) refl (if_lem P (env.acquires id) refl refl)

  spawned_by-spawns :
      (m : Manager V RepoProviderConfig) (id : String) (o : Option (Option String))
      → (spawned_by m env repo id o).0.recent_spawns ≡ m.recent_spawns
  unfolding spawned_by
  spawned_by-spawns m id none = refl
  spawned_by-spawns m id (some deadline) =
      start_attach-spawns _ id ∙ note_deadline-spawns m id deadline

  spawned-tracked :
      (m : Manager V RepoProviderConfig) (id : String)
      → get id (spawned m env repo timeout_secs (ok id)).0.recent_spawns ≡ some repo
  unfolding spawned emit
  spawned-tracked m id = ap (get id) (spawned_by-spawns _ id _) ∙ get-insert id repo m.recent_spawns

module _ {V Config : Type 0} (polled : String) (acquires : String → Bool)
    (parse : String → Option ℕ) (now : ℕ) (history : String → Result (List (FleetEvent V)))
    (kill : String → Result (Unit {0})) where
  -- A poll keeps a tracked agent findable: the snapshot has it if it is listed, and the tracking stays
  -- if it is not.
  reconcile-IsFound :
      (own : Bool) (records : List AgentRecord) (w : Workspace Config) (m : Manager V Config)
      (id repo : String)
      → find_workspace polled m.snapshot.workspaces ≡ some w
      → get id m.recent_spawns ≡ some repo
      → IsFound (reconcile m polled own acquires parse now history kill records) id
  unfolding repo_of find_agent
  reconcile-IsFound own records w m id repo h k =
      let m' = reconcile m polled own acquires parse now history kill records in
      elim (Bool-cases (is_there (status_of id records))) [
        | inl e ↦ snapshot-IsFound m' id (find_in id m'.snapshot.workspaces) (
            find_in_found id polled (as_listed polled records w) m'.snapshot.workspaces
              (reconcile-find polled acquires parse now history kill own records w m h)
              (find-listed polled id records e))
        | inr e ↦ tracked-IsFound m' id repo (find_in id m'.snapshot.workspaces) (
            ap (get id) (reconcile-spawns polled acquires parse now history kill own records m)
            ∙ get-filter id (unlisted records) m.recent_spawns
                (λ v. ap not (any-status_of id records ∙ e))
            ∙ k)
      ]

-- An agent that was just spawned can be found, and still can after the next poll of any workspace that
-- the snapshot has, whether or not the poll lists the agent and whoever holds the lease.
pub spawned-IsFound :
    {V : Type 0} (m : Manager V RepoProviderConfig) (env : SpawnEnv) (repo id polled : String)
    (timeout_secs : Option ℕ) (parse : String → Option ℕ) (now : ℕ)
    (history : String → Result (List (FleetEvent V))) (kill : String → Result (Unit {0}))
    (own : Bool) (records : List AgentRecord) (w : Workspace RepoProviderConfig)
    → let m' = (spawned m env repo timeout_secs (ok id)).0 in
      find_workspace polled m'.snapshot.workspaces ≡ some w
      → IsFound m' id
        × IsFound (reconcile m' polled own env.acquires parse now history kill records) id
unfolding repo_of
spawned-IsFound m env repo id polled timeout_secs parse now history kill own records w h =
    let m' = (spawned m env repo timeout_secs (ok id)).0 in
    let tracked = spawned-tracked env repo timeout_secs m id in
    (
      tracked-IsFound m' id repo (find_agent m'.snapshot id) tracked,
      reconcile-IsFound polled env.acquires parse now history kill own records w m' id repo h
          tracked,
    )
