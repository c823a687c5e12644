-- ===== src/Fleet/Changes/Follows.antt =====
-- A follower of the fleet over a poll.
use prospero.Prelude.{
  ◌≡◌, refl, ap, Bool, true, false, Option, none, some, List, [], ◌∷◌, ◌++◌, String, get, arith,
  Bool-cases, inl, inr,
}
use prospero.Model.{Agent, AgentStatus}
use prospero.Model.Event.{EventKind}
use prospero.Model.Change.{FleetChange, discovered, status_changed, gone, workspace_health}
use prospero.Caliband.Wire.{AgentRecord}
use prospero.Fleet.Manager.{FleetSnapshot, Manager, contains}
use prospero.Fleet.Reconcile.{same_status, same_status-eq, statuses, workspace_agents, emit_diff}
use prospero.Fleet.Reconcile.Diff.{kinds_for, news, status_of, IsUnique, emit_diff_exact}
use prospero.Fleet.Changes.{found_within, change_for, announced}

-- The status of an agent after a change that is told of it.
abbrev pub after : Option AgentStatus → Option FleetChange → Option AgentStatus
after old none = old
after old (some (discovered id repo a)) = some a.status
after old (some (status_changed id repo from to)) = some to
after old (some (gone id repo)) = none
after old (some (workspace_health repo state)) = old

abbrev pub status_found : Option Agent → Option AgentStatus
status_found none = none
status_found (some a) = some a.status

after-announced :
    (id repo : String) (found : Option Agent) (now : AgentStatus)
    → status_found found ≡ some now
    → after none (announced id repo found) ≡ some now
unfolding announced
after-announced id repo none now e = absurd (ground (arith, e))
after-announced id repo (some a) now e = e

module _ {Config : Type 0} (reads : List (FleetSnapshot Config)) (repo id : String) where
  -- The status of an agent for a follower who hears these events of it.
  abbrev pub follow : {V : Type 0} → List (EventKind V) → Option AgentStatus → Option AgentStatus
  follow [] old = old
  follow (k ∷ ks) old = follow ks (after old (change_for reads repo id k))

  follow-news :
      (V : Type 0) (attached : Bool) (old now : Option AgentStatus)
      → (old ≡ none → attached ≡ false)
      → status_found (found_within id reads) ≡ now
      → follow (news {V = V} true attached old now) old ≡ now
  unfolding change_for
  follow-news V attached none none h f = refl
  follow-news V true none (some now) h f = absurd (ground (arith, h refl))
  follow-news V false none (some now) h f = after-announced id repo (found_within id reads) now f
  follow-news V attached (some old) none h f = refl
  follow-news V attached (some old) (some now) h f = elim (Bool-cases (same_status old now)) [
    | inl e ↦ rw e (ap some (same_status-eq old now e))
    | inr e ↦ rw e refl
  ]

  -- With the lease of the workspace, the comparison of a poll with the snapshot (`emit_diff`) emits what
  -- brings the status that the followers have of an agent, if that was the snapshot's, to the one that
  -- caliband lists: if the ids of the list differ, an agent that is not in
  -- the snapshot is not followed by an attach task, and the snapshots read for a discovery, till the
  -- budget ends, have the agent as it is listed.
  pub poll_followed :
      {V : Type 0} (m : Manager V Config) (records : List AgentRecord)
      → IsUnique records
      → (get id (statuses (workspace_agents m repo) []) ≡ none → contains id m.attached ≡ false)
      → status_found (found_within id reads) ≡ status_of id records
      → (ks : List (EventKind V)) × (kinds_for id (emit_diff m repo true records).emitted
          ≡ kinds_for id m.emitted ++ ks)
        × (follow ks (get id (statuses (workspace_agents m repo) [])) ≡ status_of id records)
  poll_followed {V} m records u h f = (
    _,
    emit_diff_exact repo true m records id u,
    follow-news V (contains id m.attached) (get id (statuses (workspace_agents m repo) []))
        (status_of id records) h f,
  )
