-- ===== src/Usage/Figures.antt =====
-- What the rows of `aggregate_usage` say, in figures.
use text.Mathlib.Text.{get?}
use prospero.Prelude.{
  ℕ, ◌+◌, ◌≡◌, refl, ap, ◌∙◌, Bool, true, false, ◌&&◌, Option, none, some, List, [], ◌∷◌, String,
  str_eq, filter, arith, if◌then◌else◌,
}
use prospero.Model.{AgentStatus, done, failed, killed, crashed, spawning, running, idle}
use prospero.Model.Ends.{at_end, is_terminal_lem}
use prospero.Model.Event.{
  F64, FleetEvent, EventKind, agent_finished, status_changed, agent_timed_out,
}
use prospero.Usage.{
  UsageRow, day_of, interesting, fresh_row, count_status, tally, aggregate_usage, row_of,
}
use prospero.Usage.Rows.{relevant, tally_all, counted, counted-row, same_day}

-- The four ways in which a run ends.
abbrev pub ended_as : AgentStatus → AgentStatus → Bool
ended_as done done = true
ended_as failed failed = true
ended_as killed killed = true
ended_as crashed crashed = true
ended_as _ _ = false

abbrev pub on_day : String → Option String → Bool
on_day day none = false
on_day day (some d) = str_eq d day

same_on_day : (day : String) (o : Option String) → same_day day o ≡ on_day day o
unfolding same_day
same_on_day day none = refl
same_on_day day (some d) = refl

module _ {V : Type 0} where
  -- The event is a turn's figures, an end of a run, or a time-out.
  abbrev pub has_figures : EventKind V → Bool
  has_figures (agent_finished outcome cost_usd turns) = true
  has_figures (status_changed from to) = at_end to
  has_figures (agent_timed_out deadline) = true
  has_figures _ = false

  -- It is of the workspace, and its stamp begins with the ten bytes of the day.
  abbrev pub counts_for : String → String → FleetEvent V → Bool
  counts_for workspace day e =
      has_figures e.kind && (str_eq e.repo workspace && on_day day (get? e.ts 0 10))

  abbrev pub ends_as : AgentStatus → EventKind V → Bool
  ends_as s (status_changed from to) = ended_as s to
  ends_as s _ = false

  abbrev pub timed_out : EventKind V → Bool
  timed_out (agent_timed_out deadline) = true
  timed_out _ = false

  abbrev pub how_many : (EventKind V → Bool) → List (FleetEvent V) → ℕ
  how_many p [] = 0
  how_many p (e ∷ rest) = (if p e.kind then 1 else 0) + how_many p rest

  abbrev pub turns_of : EventKind V → ℕ
  turns_of (agent_finished outcome cost_usd turns) = turns
  turns_of _ = 0

  abbrev pub all_turns : List (FleetEvent V) → ℕ
  all_turns [] = 0
  all_turns (e ∷ rest) = turns_of e.kind + all_turns rest

  module _ (add : F64 → F64 → F64) where
    abbrev pub cost_after : F64 → EventKind V → F64
    cost_after sum (agent_finished outcome cost_usd turns) = add sum cost_usd
    cost_after sum _ = sum

    -- From the left, as the sum of two f64 is not associative.
    abbrev pub all_costs : F64 → List (FleetEvent V) → F64
    all_costs sum [] = sum
    all_costs sum (e ∷ rest) = all_costs (cost_after sum e.kind) rest

    -- The figures of the events on top of a row.
    abbrev on_top : UsageRow → List (FleetEvent V) → UsageRow
    on_top r events = record {
      workspace = r.workspace;
      day = r.day;
      cost_usd = all_costs r.cost_usd events;
      turns = r.turns + all_turns events;
      done_count = r.done_count + how_many (ends_as done) events;
      failed_count = r.failed_count + how_many (ends_as failed) events;
      killed_count = r.killed_count + how_many (ends_as killed) events;
      crashed_count = r.crashed_count + how_many (ends_as crashed) events;
      timed_out = r.timed_out + how_many timed_out events;
    }

    -- The row of the events that count for a workspace and a day, if there are any.
    abbrev pub row_figures : String → String → List (FleetEvent V) → Option UsageRow
    row_figures workspace day [] = none
    row_figures workspace day (e ∷ rest) = some (record {
      workspace = workspace;
      day = day;
      cost_usd = all_costs 0 (e ∷ rest);
      turns = all_turns (e ∷ rest);
      done_count = how_many (ends_as done) (e ∷ rest);
      failed_count = how_many (ends_as failed) (e ∷ rest);
      killed_count = how_many (ends_as killed) (e ∷ rest);
      crashed_count = how_many (ends_as crashed) (e ∷ rest);
      timed_out = how_many timed_out (e ∷ rest);
    })

    status_on_top :
        (r : UsageRow) (from to : AgentStatus) (e : FleetEvent V) (rest : List (FleetEvent V))
        → e.kind ≡ status_changed from to
        → on_top (count_status r to) rest ≡ on_top r (e ∷ rest)
    unfolding count_status
    status_on_top r from done e rest h = rw h (ground arith)
    status_on_top r from failed e rest h = rw h (ground arith)
    status_on_top r from killed e rest h = rw h (ground arith)
    status_on_top r from crashed e rest h = rw h (ground arith)
    status_on_top r from spawning e rest h = rw h (ground arith)
    status_on_top r from running e rest h = rw h (ground arith)
    status_on_top r from idle e rest h = rw h (ground arith)

    one_on_top :
        (r : UsageRow) (k : EventKind V) (e : FleetEvent V) (rest : List (FleetEvent V))
        → e.kind ≡ k
        → on_top (tally add r k) rest ≡ on_top r (e ∷ rest)
    unfolding tally
    one_on_top r (agent_finished outcome cost_usd turns) e rest h = rw h (ground arith)
    one_on_top r (status_changed from to) e rest h = status_on_top r from to e rest h
    one_on_top r (agent_timed_out deadline) e rest h = rw h (ground arith)
    one_on_top r _ e rest h = rw h (ground arith)

    tally_all-on_top :
        (r : UsageRow) (events : List (FleetEvent V)) → tally_all add r events ≡ on_top r events
    tally_all-on_top r [] = ground arith
    tally_all-on_top r (e ∷ rest) =
        tally_all-on_top (tally add r e.kind) rest ∙ one_on_top r e.kind e rest refl

    counted-figures :
        (w d : String) (events : List (FleetEvent V))
        → counted add w d none events ≡ row_figures w d events
    unfolding fresh_row
    counted-figures w d [] = refl
    counted-figures w d (e ∷ rest) =
        ap some (tally_all-on_top (fresh_row w d) (e ∷ rest)) ∙ ground arith

  interesting-figures : (k : EventKind V) → interesting k ≡ has_figures k
  unfolding interesting
  interesting-figures (agent_finished outcome cost_usd turns) = refl
  interesting-figures (status_changed from to) = is_terminal_lem to
  interesting-figures (agent_timed_out deadline) = refl
  interesting-figures _ = refl

  relevant-counts_for : (w d : String) (e : FleetEvent V) → relevant w d e ≡ counts_for w d e
  unfolding relevant day_of
  relevant-counts_for w d e = rw (interesting-figures e.kind, same_on_day d (get? e.ts 0 10)) refl

  filter-counts_for :
      (w d : String) (events : List (FleetEvent V))
      → filter (relevant w d) events ≡ filter (counts_for w d) events
  filter-counts_for w d [] = refl
  filter-counts_for w d (e ∷ rest) = rw (relevant-counts_for w d e, filter-counts_for w d rest) refl

  -- The aggregate has a row for a workspace and a day exactly if an event counts for them: a turn's
  -- figures, a run that is done, failed, killed or crashed, or a time-out, of the workspace, with a stamp of
  -- which the first ten bytes are the day. The row then has, of these events and no others, the costs
  -- added from the left, the sum of the turns, the number of ends of each of the four kinds, and the
  -- number of time-outs.
  pub aggregate_usage-row :
      (add : F64 → F64 → F64) (w d : String) (events : List (FleetEvent V))
      → row_of w d (aggregate_usage add events)
        ≡ row_figures add w d (filter (counts_for w d) events)
  aggregate_usage-row add w d events =
      counted-row add w d events
      ∙ (ap (counted add w d none) (filter-counts_for w d events)
          ∙ counted-figures add w d (filter (counts_for w d) events))
