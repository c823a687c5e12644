-- ===== src/Fleet/Changes.antt =====
-- `watch_changes`, `event_to_change` and `drain_agent` of crates/core/src/fleet.rs. The snapshots that a loop
-- reads until its deadline are a list of them.
pub mod Follows
use prospero.Prelude.{
  ℕ, Bool, true, false, Option, none, some, List, [], ◌∷◌, ◌++◌, String, if◌then◌else◌,
}
use prospero.Error.{Result}
use prospero.Model.{Agent, is_terminal}
use prospero.Model.Event.{
  FleetEvent, EventKind, agent_spawned, agent_discovered, agent_init, status_changed, output,
  tool_started, tool_finished, agent_finished, agent_gone, store_persist_failed, deadline_set,
  agent_timed_out, repo_health,
}
use prospero.Model.Change.{FleetChange}
use prospero.Bus.{BusEvent, event, lagged}
use prospero.Fleet.Manager.{Workspace, FleetSnapshot, Manager, find_agent, served_snapshot}
use prospero.Fleet.Control.{send_agent_input, kill_agent}

or_later : Option (String × Agent) → Option Agent → Option Agent
or_later none later = later
or_later (some (repo, a)) later = some a

announced : (id repo : String) → Option Agent → Option FleetChange
announced id repo none = none
announced id repo (some a) = some (FleetChange.discovered id repo a)

listed : Option FleetChange → List FleetChange
listed none = []
listed (some c) = c ∷ []

unfoldable pub seed_agents : String → List Agent → List FleetChange
seed_agents repo [] = []
seed_agents repo (a ∷ rest) = FleetChange.discovered a.id repo a ∷ seed_agents repo rest

is_settled : Option (String × Agent) → Bool
is_settled none = true
is_settled (some (repo, a)) = is_terminal a.status

module _ {Config : Type 0} where
  -- The agent in the first snapshot that has it, if any has in time.
  unfoldable pub found_within : String → List (FleetSnapshot Config) → Option Agent
  unfolding or_later
  found_within id [] = none
  found_within id (snap ∷ later) = or_later (find_agent snap id) (found_within id later)

  unfoldable pub change_for :
      {V : Type 0}
      → List (FleetSnapshot Config)
      → (repo agent_id : String) → EventKind V
      → Option FleetChange
  unfolding announced
  change_for reads repo id agent_discovered = announced id repo (found_within id reads)
  change_for reads repo id (status_changed from to) =
      some (FleetChange.status_changed id repo from to)
  change_for reads repo id agent_gone = some (FleetChange.gone id repo)
  change_for reads repo id (repo_health state) = some (FleetChange.workspace_health repo state)
  change_for reads repo id agent_spawned = none
  change_for reads repo id (deadline_set deadline) = none
  change_for reads repo id (agent_timed_out deadline) = none
  change_for reads repo id (agent_init model tools session_id) = none
  change_for reads repo id (output stream chunk) = none
  change_for reads repo id (tool_started call name input) = none
  change_for reads repo id (tool_finished call name ok result truncated) = none
  change_for reads repo id (agent_finished outcome cost_usd turns) = none
  change_for reads repo id (store_persist_failed lost_seq detail) = none

  unfoldable pub event_to_change :
      {V : Type 0} → List (FleetSnapshot Config) → FleetEvent V → Option FleetChange
  event_to_change reads ev = change_for reads ev.repo ev.agent_id ev.kind

  unfoldable pub seed : List (Workspace Config) → List FleetChange
  seed [] = []
  seed (ws ∷ rest) =
      FleetChange.workspace_health ws.name ws.health ∷ (seed_agents ws.name ws.agents ++ seed rest)

  -- The live feed: each event of the bus with the snapshots that are read for it. A lag is only logged.
  unfoldable pub live_changes :
      {V : Type 0} → List (BusEvent V × List (FleetSnapshot Config)) → List FleetChange
  unfolding listed
  live_changes [] = []
  live_changes ((event ev, reads) ∷ rest) = listed (event_to_change reads ev) ++ live_changes rest
  live_changes ((lagged skipped, reads) ∷ rest) = live_changes rest

module _ {V Config : Type 0} where
  unfoldable pub watch_changes :
      Manager V Config → List (BusEvent V × List (FleetSnapshot Config)) → List FleetChange
  watch_changes m live = seed (served_snapshot m).workspaces ++ live_changes live

  -- The manager when the wait ends; the list has it at each poll until the deadline.
  unfoldable pub waited : Manager V Config → List (Manager V Config) → String → Manager V Config
  unfolding is_settled
  waited m [] id = m
  waited m (next ∷ later) id =
      let rest = waited next later id in
      if is_settled (find_agent (served_snapshot next) id) then next else rest

  -- What the input came to, which is ignored, and what the kill came to, which is the result.
  unfoldable pub drain_agent :
      Manager V Config
      → List (Manager V Config)
      → (input kill : String → Result (Unit {0})) → String
      → Result (Unit {0}) × Result (Unit {0})
  drain_agent m polls input kill id =
      (send_agent_input m input id, kill_agent (waited m polls id) kill id)
