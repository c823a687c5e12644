-- ===== src/Usage.antt =====
-- `aggregate_usage` of crates/core/src/store.rs: what each workspace did on each day. The map of the rows is an
-- association list; the source lists its values by key. `add` is the sum of two f64.
pub mod Rows
pub mod Figures
use text.Mathlib.Text.{get?}
use prospero.Prelude.{
  ℕ, ◌+◌, Bool, true, false, ◌&&◌, Option, none, some, List, [], ◌∷◌, String, str_eq, find,
  if◌then◌else◌,
}
use prospero.Model.{AgentStatus, done, failed, killed, crashed, is_terminal}
use prospero.Model.Event.{
  F64, FleetEvent, EventKind, agent_finished, status_changed, agent_timed_out,
}

pub record UsageRow : Type 0 where
  pub workspace : String
  pub day : String
  pub cost_usd : F64
  pub turns : ℕ
  pub done_count : ℕ
  pub failed_count : ℕ
  pub killed_count : ℕ
  pub crashed_count : ℕ
  pub timed_out : ℕ

-- The first ten bytes, where they are whole characters.
unfoldable pub day_of : String → Option String
day_of ts = get? ts 0 10

unfoldable pub interesting : {V : Type 0} → EventKind V → Bool
interesting (agent_finished outcome cost_usd turns) = true
interesting (status_changed from to) = is_terminal to
interesting (agent_timed_out deadline) = true
interesting _ = false

unfoldable pub fresh_row : String → String → UsageRow
fresh_row workspace day = record {
  workspace = workspace;
  day = day;
  cost_usd = 0;
  turns = 0;
  done_count = 0;
  failed_count = 0;
  killed_count = 0;
  crashed_count = 0;
  timed_out = 0;
}

unfoldable pub count_status : UsageRow → AgentStatus → UsageRow
count_status row done = record row { done_count = row.done_count + 1 }
count_status row failed = record row { failed_count = row.failed_count + 1 }
count_status row killed = record row { killed_count = row.killed_count + 1 }
count_status row crashed = record row { crashed_count = row.crashed_count + 1 }
count_status row _ = row

module _ (add : F64 → F64 → F64) {V : Type 0} where
  unfoldable pub tally : UsageRow → EventKind V → UsageRow
  tally row (agent_finished outcome cost_usd turns) = record row {
    cost_usd = add row.cost_usd cost_usd;
    turns = row.turns + turns;
  }
  tally row (status_changed from to) = count_status row to
  tally row (agent_timed_out deadline) = record row { timed_out = row.timed_out + 1 }
  tally row _ = row

  -- The row of the key, a fresh one if there is none, counts the event.
  unfoldable pub entry : String → String → EventKind V → List UsageRow → List UsageRow
  entry workspace day kind [] = tally (fresh_row workspace day) kind ∷ []
  entry workspace day kind (r ∷ rest) =
      let others = entry workspace day kind rest in
      if str_eq r.workspace workspace && str_eq r.day day then tally r kind ∷ rest else r ∷ others

  unfoldable pub count_event : List UsageRow → FleetEvent V → List UsageRow
  count_event rows e = elim (day_of e.ts) [
    | none ↦ rows
    | some day ↦ if interesting e.kind then entry e.repo day e.kind rows else rows
  ]

  unfoldable pub count_all : List UsageRow → List (FleetEvent V) → List UsageRow
  count_all rows [] = rows
  count_all rows (e ∷ rest) = count_all (count_event rows e) rest

  unfoldable pub aggregate_usage : List (FleetEvent V) → List UsageRow
  aggregate_usage events = count_all [] events

abbrev pub row_of : String → String → List UsageRow → Option UsageRow
row_of workspace day rows = find (λ r. str_eq r.workspace workspace && str_eq r.day day) rows
