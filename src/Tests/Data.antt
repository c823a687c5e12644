-- ===== src/Tests/Data.antt =====
-- Events of one agent, `a`, and the end of its run.
use prospero.Prelude.{ℕ, none}
use prospero.Model.Event.{FleetEvent, agent_spawned, agent_finished}

abbrev pub ev : ℕ → FleetEvent (Unit {0})
ev n = record {
  seq = n;
  ts = "2026-01-01T00:00:00Z";
  repo = "w";
  agent_id = "a";
  kind = agent_spawned;
  actor = none;
  on_behalf_of = none;
}

abbrev pub last_ev : ℕ → FleetEvent (Unit {0})
last_ev n = record (ev n) { kind = agent_finished "done" 0 3 }
