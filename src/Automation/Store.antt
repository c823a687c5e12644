-- ===== src/Automation/Store.antt =====
-- The automations of crates/core/src/config_store.rs, `SqliteConfigStore`: each statement is atomic.
-- Statements are taken to succeed. A row keeps `last_fired_at` in its own column.
pub mod Recorded
pub mod Claims
use prospero.Prelude.{
  ℕ, ◌+◌, Bool, true, false, not, ◌&&◌, Option, none, some, List, [], ◌∷◌, ◌++◌, String, str_eq,
  ltb, ◌==◌, length, filter, take, any, map, if◌then◌else◌,
}
use prospero.Automation.{Automation, AutomationRun, StoredAutomation}

abbrev pub run_history_limit : ℕ
run_history_limit = 200

pub record ConfigDb : Type 0 where
  pub automations : List StoredAutomation
  pub automation_runs : List AutomationRun

-- A new row has not fired; an edited one keeps when it did.
unfoldable pub upsert_row : StoredAutomation → List StoredAutomation → List StoredAutomation
upsert_row s [] = record s { automation = record s.automation { last_fired_at = none } } ∷ []
upsert_row s (r ∷ rest) =
    if str_eq r.automation.id s.automation.id
    then record s {
      automation = record s.automation { last_fired_at = r.automation.last_fired_at };
    }
      ∷ rest
    else r ∷ upsert_row s rest

unfoldable pub upsert_automation : ConfigDb → StoredAutomation → ConfigDb
upsert_automation db s = record db { automations = upsert_row s db.automations }

unfoldable pub delete_automation : ConfigDb → String → ConfigDb × Bool
delete_automation db id =
    let kept = filter (λ r. not (str_eq r.automation.id id)) db.automations in
    (
      record db {
        automations = kept;
        automation_runs = filter (λ r. not (str_eq r.automation_id id)) db.automation_runs;
      },
      not (length kept == length db.automations),
    )

-- `last_fired_at IS NULL OR last_fired_at < ?`
unfoldable pub claimable : ℕ → Option ℕ → Bool
claimable fire_at none = true
claimable fire_at (some last) = ltb last fire_at

unfoldable pub claim_row : String → ℕ → List StoredAutomation → List StoredAutomation × Bool
claim_row id fire_at [] = ([], false)
claim_row id fire_at (r ∷ rest) =
    let (rest', won) = claim_row id fire_at rest in
    if str_eq r.automation.id id
    then if claimable fire_at r.automation.last_fired_at
      then (
        record r { automation = record r.automation { last_fired_at = some fire_at } } ∷ rest,
        true,
      )
      else (r ∷ rest, false)
    else (r ∷ rest', won)

unfoldable pub claim_automation_fire : ConfigDb → String → ℕ → ConfigDb × Bool
claim_automation_fire db id fire_at =
    let (rows, won) = claim_row id fire_at db.automations in (record db { automations = rows }, won)

-- When the automation last fired, if there is one of that id and it has.
unfoldable pub last_fired : List StoredAutomation → String → Option ℕ
last_fired [] id = none
last_fired (r ∷ rest) id =
    if str_eq r.automation.id id then r.automation.last_fired_at else last_fired rest id

-- The runs by their time, the latest first; of two with one time either may stand first.
unfoldable pub insert_run : AutomationRun → List AutomationRun → List AutomationRun
insert_run run [] = run ∷ []
insert_run run (r ∷ rest) =
    if ltb run.fired_at r.fired_at then r ∷ insert_run run rest else run ∷ r ∷ rest

unfoldable pub runs_of : String → List AutomationRun → List AutomationRun
runs_of id [] = []
runs_of id (r ∷ rest) =
    let others = runs_of id rest in
    if str_eq r.automation_id id then insert_run r others else others

-- The insertion, and the deletion of what is beyond the limit.
unfoldable pub record_run : ConfigDb → AutomationRun → ConfigDb
record_run db run = record db {
  automation_runs =
      filter (λ r. not (str_eq r.automation_id run.automation_id)) db.automation_runs
      ++ take run_history_limit (runs_of run.automation_id (run ∷ db.automation_runs));
}

unfoldable pub list_runs : ConfigDb → String → ℕ → List AutomationRun
list_runs db id limit = take limit (runs_of id db.automation_runs)
