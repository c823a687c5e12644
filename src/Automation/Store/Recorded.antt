-- ===== src/Automation/Store/Recorded.antt =====
-- What `record_run` of crates/core/src/config_store.rs keeps of the runs.
use prospero.Prelude.{
  ℕ, ◌≤◌, ◌≡◌, refl, ap, true, not, List, [], ◌∷◌, ◌++◌, String, arith, inl, inr, All, filter, take,
  str_eq, eq_iff, ltb, Bool-cases,
}
use prospero.Automation.{AutomationRun}
use prospero.Automation.Store.{ConfigDb, insert_run, runs_of, record_run, run_history_limit}

-- A new run that no run of the list is later than comes first.
insert_newest :
    (run : AutomationRun) (runs : List AutomationRun)
    → All (λ (r : AutomationRun). r.fired_at ≤ run.fired_at) runs
    → insert_run run runs ≡ run ∷ runs
unfolding insert_run
insert_newest run [] h = refl
insert_newest run (r ∷ rest) h = ground (arith, h.0)

insert-All :
    (now : ℕ) (run : AutomationRun) (runs : List AutomationRun)
    → run.fired_at ≤ now
    → All (λ (r : AutomationRun). r.fired_at ≤ now) runs
    → All (λ (r : AutomationRun). r.fired_at ≤ now) (insert_run run runs)
unfolding insert_run
insert-All now run [] k h = (k, tt)
insert-All now run (r ∷ rest) k h = elim (Bool-cases (ltb run.fired_at r.fired_at)) [
  | inl e ↦ rw (e) (h.0, insert-All now run rest k h.1)
  | inr e ↦ rw (e) (k, h)
]

runs_of-All :
    (now : ℕ) (id : String) (runs : List AutomationRun)
    → All (λ (r : AutomationRun). r.fired_at ≤ now) runs
    → All (λ (r : AutomationRun). r.fired_at ≤ now) (runs_of id runs)
unfolding runs_of
runs_of-All now id [] h = tt
runs_of-All now id (r ∷ rest) h = elim (Bool-cases (str_eq r.automation_id id)) [
  | inl e ↦ rw (e) (insert-All now r (runs_of id rest) h.0 (runs_of-All now id rest h.1))
  | inr e ↦ rw (e) (runs_of-All now id rest h.1)
]

runs_of-newest :
    (run : AutomationRun) (runs : List AutomationRun)
    → All (λ (r : AutomationRun). r.fired_at ≤ run.fired_at) runs
    → runs_of run.automation_id (run ∷ runs) ≡ run ∷ runs_of run.automation_id runs
unfolding runs_of
runs_of-newest run runs h =
    let itself : str_eq run.automation_id run.automation_id ≡ true =
      ground (arith, eq_iff run.automation_id run.automation_id) in
    rw itself (
      insert_newest run (runs_of run.automation_id runs)
        (runs_of-All run.fired_at run.automation_id runs h))

-- Of the runs of its automation, the new one and the 199 latest before it are kept.
abbrev pub Recorded : ConfigDb → AutomationRun → ConfigDb → Type 0
Recorded db run db' =
    (db'.automations ≡ db.automations)
    × (db'.automation_runs
        ≡ filter (λ (r : AutomationRun). not (str_eq r.automation_id run.automation_id))
            db.automation_runs
          ++ (run ∷ take 199 (runs_of run.automation_id db.automation_runs)))

pub record_run-Recorded :
    (db : ConfigDb) (run : AutomationRun)
    → All (λ (r : AutomationRun). r.fired_at ≤ run.fired_at) db.automation_runs
    → Recorded db run (record_run db run)
unfolding record_run
record_run-Recorded db run h = (
  refl,
  ap
      (λ runs.
        filter (λ (r : AutomationRun). not (str_eq r.automation_id run.automation_id))
          db.automation_runs
        ++ take run_history_limit runs)
      (runs_of-newest run db.automation_runs h),
)
