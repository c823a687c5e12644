-- ===== src/Tests/Emission.antt =====
-- The emitter.
use prospero.Prelude.{◌≡◌, false, none, some, [], ◌∷◌, String, get}
use prospero.Error.{CoreError}
use prospero.Model.Event.{FleetEvent, agent_gone, stream_key_for}
use prospero.Store.Sqlite.{SqliteStore, taken, events}
use prospero.Fleet.Emitter.{Ambient, Emitter, emit}
use prospero.Fleet.Emitter.Outcome.{Emitted, emit-Emitted, Made}
use prospero.Fleet.Emitter.Recovery.{sqlite_api, emit_persists}
use prospero.Fleet.Emitter.Race.{Stream, start, issue}
use prospero.Tests.Data.{ev}

abbrev describe : CoreError → String
describe e = "failed"

abbrev env : Ambient
env = record { now = "2026-01-02T00:00:00Z"; actor = some "ops"; subject = none }

-- Another replica has taken the number 2, which this emitter is about to give out.
abbrev behind : Emitter (SqliteStore (Unit {0})) (Unit {0})
behind = record {
  store = record {
    rows = record { cursor = 1; event = ev 1 } ∷ record { cursor = 2; event = ev 2 } ∷ [];
    last_ordinal = 2;
  };
  seqs = ("a", 1) ∷ [];
  published = [];
  events_appended = 0;
  append_failures = 0;
}

emit-Emitted_example :
    Emitted sqlite_api describe behind env "w" "a" agent_gone
      (emit sqlite_api describe behind env "w" "a" agent_gone)
emit-Emitted_example = emit-Emitted sqlite_api describe behind env "w" "a" agent_gone

emit_persists_example :
    let em' = emit sqlite_api describe behind env "w" "a" agent_gone in
    (e : FleetEvent (Unit {0})) × Made sqlite_api describe env "w" "a" agent_gone e
    × (em'.published ≡ e ∷ [])
    × (events em'.store.rows ≡ ev 1 ∷ ev 2 ∷ e ∷ [])
    × (taken e (ev 1 ∷ ev 2 ∷ []) ≡ false)
    × (get (stream_key_for "w" "a") em'.seqs ≡ some e.seq)
    × (em'.append_failures ≡ 0)
emit_persists_example = emit_persists describe behind env "w" "a" agent_gone

-- Two tasks read the mark 7 before either has numbered an event.
abbrev raced : Stream
raced = issue (issue (record (start 7) { reading = 7 ∷ 7 ∷ [] }) 8) 9
