-- ===== src/Tests/Stores.antt =====
-- The stores.
use prospero.Prelude.{◌+◌, ◌≡◌, refl, List, [], ◌∷◌, ◌++◌, arith, filter, if◌then◌else◌}
use prospero.Model.Event.{F64, FleetEvent}
use prospero.Store.Query.{replay_fleet, latest_fleet_cursor, enumerate}
use prospero.Store.Cursor.{cursor_after_rewrite}
use prospero.Store.Sqlite.{SqliteStore, append, prune, taken, events, young}
use prospero.Store.Sqlite
use prospero.Store.Sqlite.Cursor.{unread, unread_stable}
use prospero.Usage.{
  UsageRow, row_of, aggregate_usage, count_all, count_event, interesting, entry, fresh_row, tally,
  day_of,
}
use prospero.Usage.Figures.{row_figures, counts_for, aggregate_usage-row}
use prospero.Tests.Data.{ev, last_ev}

abbrev log : List (FleetEvent (Unit {0}))
log = ev 2 ∷ ev 1 ∷ last_ev 3 ∷ []

cursor_after_rewrite_example :
    replay_fleet (latest_fleet_cursor log) 10 (last_ev 3 ∷ ev 4 ∷ ev 5 ∷ ev 6 ∷ [])
    ≡ enumerate 3 (ev 6 ∷ [])
cursor_after_rewrite_example =
    cursor_after_rewrite 10 log (last_ev 3 ∷ []) (ev 4 ∷ ev 5 ∷ ev 6 ∷ []) (omega arith)

abbrev table : SqliteStore (Unit {0})
table = record {
  rows = record { cursor = 2; event = ev 2 } ∷ record { cursor = 5; event = last_ev 3 } ∷ [];
  last_ordinal = 6;
}

unread_stable_example :
    (unread 2 (append table (ev 4)).0 ≡ (
      if taken (ev 4) (events table.rows)
      then unread 2 table
      else unread 2 table ++ (record { cursor = 7; event = ev 4 } ∷ [])))
    × (unread 2 (prune table "2027").0 ≡ filter (young "2027") (unread 2 table))
    × (unread (Sqlite.latest_fleet_cursor table) table ≡ [])
unread_stable_example =
    unread_stable table 2 (ev 4) "2027" (omega arith, (omega arith, omega arith)) (omega arith)

abbrev sum_of : F64 → F64 → F64
sum_of a b = a + b

abbrev usage_row : UsageRow
usage_row = record {
  workspace = "w";
  day = "2026-01-01";
  cost_usd = 0;
  turns = 3;
  done_count = 0;
  failed_count = 0;
  killed_count = 0;
  crashed_count = 0;
  timed_out = 0;
}

aggregate_usage-row_example :
    row_of "w" "2026-01-01" (aggregate_usage sum_of log)
    ≡ row_figures sum_of "w" "2026-01-01" (filter (counts_for "w" "2026-01-01") log)
aggregate_usage-row_example = aggregate_usage-row sum_of "w" "2026-01-01" log

-- One run of three turns.
one_run : aggregate_usage sum_of log ≡ usage_row ∷ []
unfolding aggregate_usage count_all count_event interesting entry fresh_row tally day_of
one_run = refl
