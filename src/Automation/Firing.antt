-- ===== src/Automation/Firing.antt =====
-- What `AutomationEngine` of crates/core/src/automation.rs fires: on a tick, by hand or for a webhook. The
-- fleet that spawns is a parameter with a state of its own.
pub mod Webhook
pub mod Tick
use prospero.Prelude.{
  ℕ, Bool, true, not, Option, none, some, List, [], ◌∷◌, String, if◌then◌else◌, ◌⊎◌, inl, inr,
}
use prospero.Error.{CoreError, Result, ok, err, unauthorized, conflict}
use prospero.Json.{Value}
use prospero.Automation.{
  Trigger, cron, SpawnTemplate, Automation, RunSource, by_schedule, by_webhook, AutomationRun,
  StoredAutomation,
}
use prospero.Automation.Store.{ConfigDb, claim_automation_fire, record_run}
use prospero.Automation.Template.{Unfilled, interpolate}
use prospero.Fleet.Control.{SpawnRequest}
use prospero.Automation.Engine.{
  Cron, Rules, due_fire, verify_webhook_signature, automation, spawn_request_from,
}

-- What a spawn goes through: the fleet's own state, and its answer to a request for a workspace.
pub record Provider : Type 1 where
  pub Fleet : Type 0
  pub ensure_agent : Fleet → String → SpawnRequest → Result String × Fleet

failed_run : Automation → ℕ → RunSource → String → AutomationRun
failed_run a fired_at source reason = record {
  automation_id = a.id;
  fired_at = fired_at;
  source = source;
  agent_id = none;
  error = some reason;
}

answered_run : (CoreError → String) → Automation → ℕ → RunSource → Result String → AutomationRun
unfolding failed_run
answered_run describe a fired_at source (err e) = failed_run a fired_at source (describe e)
answered_run describe a fired_at source (ok id) = record {
  automation_id = a.id;
  fired_at = fired_at;
  source = source;
  agent_id = some id;
  error = none;
}

-- The tick that a listed automation owes: none if it is disabled or has a webhook.
unfoldable pub owed : Cron → (now : ℕ) → Bool → Trigger → (anchor : ℕ) → Option ℕ
owed c now true (cron schedule) anchor = due_fire c schedule anchor now
owed c now _ _ anchor = none

-- The last fire, or the creation before the first.
unfoldable pub anchored : (created_at : ℕ) → Option ℕ → ℕ
anchored created_at none = created_at
anchored created_at (some last) = last

unfoldable pub anchor_of : Automation → ℕ
anchor_of a = anchored a.created_at a.last_fired_at

module _ (provider : Provider) (rules : Rules) where
  open provider use {Fleet, ensure_agent}

  -- The record of a run that has its task, or not.
  unfoldable pub run_with :
      Automation
      → (fired_at : ℕ) → RunSource
      → Fleet
      → Option (Unfilled ⊎ String)
      → AutomationRun × Fleet
  unfolding failed_run answered_run
  run_with a fired_at source fleet none = (failed_run a fired_at source "", fleet)
  run_with a fired_at source fleet (some (inl why)) =
      (failed_run a fired_at source (rules.reason why), fleet)
  run_with a fired_at source fleet (some (inr task)) =
      let (answer, fleet') = ensure_agent fleet a.workspace (spawn_request_from a.template task) in
      (answered_run rules.describe a fired_at source answer, fleet')

  -- Without a payload the task is the template as it stands.
  task_of : SpawnTemplate → Option Value → Option (Unfilled ⊎ String)
  task_of template none = some (inr template.task)
  task_of template (some payload) = interpolate rules.render template.task payload

  unfoldable pub run_automation :
      StoredAutomation → (fired_at : ℕ) → RunSource → Option Value → Fleet → AutomationRun × Fleet
  unfolding task_of
  run_automation s fired_at source payload fleet =
      run_with s.automation fired_at source fleet (task_of s.automation.template payload)

  -- The run and its record.
  unfoldable pub run_and_save :
      ConfigDb
      → StoredAutomation
      → (fired_at : ℕ) → RunSource
      → Option Value
      → Fleet
      → ConfigDb × Fleet × AutomationRun
  run_and_save db s fired_at source payload fleet =
      let (run, fleet') = run_automation s fired_at source payload fleet in
      (record_run db run, fleet', run)

  fire_found :
      ConfigDb
      → RunSource
      → Option Value
      → (now : ℕ) → Fleet
      → Result StoredAutomation
      → ConfigDb × Fleet × Result AutomationRun
  fire_found db source payload now fleet (err e) = (db, fleet, err e)
  fire_found db source payload now fleet (ok s) =
      let (db', fleet', run) = run_and_save db s now source payload fleet in (db', fleet', ok run)

  unfoldable pub fire_automation :
      ConfigDb
      → String
      → RunSource
      → Option Value
      → (now : ℕ) → Fleet
      → ConfigDb × Fleet × Result AutomationRun
  unfolding fire_found
  fire_automation db id source payload now fleet =
      fire_found db source payload now fleet (automation db id)

  -- The guards of a webhook, in their order: the payload, or why nothing is fired.
  unfoldable pub webhook_payload :
      StoredAutomation → (body : String) → Option String → Option String → Result Value
  webhook_payload s body signature none = err (unauthorized s.automation.id)
  webhook_payload s body signature (some secret) =
      if not (verify_webhook_signature rules secret body signature)
      then err (unauthorized s.automation.id)
      else (if not s.automation.enabled then err (conflict s.automation.id) else rules.parse body)

  unfoldable pub fire_payload :
      ConfigDb
      → StoredAutomation
      → (now : ℕ) → Fleet
      → Result Value
      → ConfigDb × Fleet × Result AutomationRun
  fire_payload db s now fleet (err e) = (db, fleet, err e)
  fire_payload db s now fleet (ok payload) =
      let (db', fleet', run) = run_and_save db s now by_webhook (some payload) fleet in
      (db', fleet', ok run)

  unfoldable pub webhook_found :
      ConfigDb
      → (body : String) → Option String
      → (now : ℕ) → Fleet
      → Result StoredAutomation
      → ConfigDb × Fleet × Result AutomationRun
  webhook_found db body signature now fleet (err e) = (db, fleet, err e)
  webhook_found db body signature now fleet (ok s) =
      fire_payload db s now fleet (webhook_payload s body signature s.webhook_secret)

  unfoldable pub trigger_webhook :
      ConfigDb
      → String
      → (body : String) → Option String
      → (now : ℕ) → Fleet
      → ConfigDb × Fleet × Result AutomationRun
  trigger_webhook db id body signature now fleet =
      webhook_found db body signature now fleet (automation db id)

  -- A tick is claimed before it is run; the loser does nothing.
  unfoldable pub tick_one : ConfigDb → Fleet → StoredAutomation → Option ℕ → ConfigDb × Fleet
  tick_one db fleet s none = (db, fleet)
  tick_one db fleet s (some tick) =
      let (db', won) = claim_automation_fire db s.automation.id tick in
      let (db'', fleet', run) = run_and_save db' s tick by_schedule none fleet in
      if won then (db'', fleet') else (db', fleet)

  unfoldable pub tick_all :
      Cron → (now : ℕ) → ConfigDb → Fleet → List StoredAutomation → ConfigDb × Fleet
  tick_all c now db fleet [] = (db, fleet)
  tick_all c now db fleet (s ∷ rest) =
      let a = s.automation in
      let (db', fleet') = tick_one db fleet s (owed c now a.enabled a.trigger (anchor_of a)) in
      tick_all c now db' fleet' rest

  unfoldable pub tick_automations : Cron → (now : ℕ) → ConfigDb → Fleet → ConfigDb × Fleet
  tick_automations c now db fleet = tick_all c now db fleet db.automations
