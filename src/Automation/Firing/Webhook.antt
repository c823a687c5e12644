-- ===== src/Automation/Firing/Webhook.antt =====
-- When a webhook fires.
use prospero.Prelude.{ℕ, ◌≡◌, true, false, Option, none, some, String, ◌⊎◌, inl, inr}
use prospero.Error.{CoreError, Result, ok, err}
use prospero.Json.{Value}
use prospero.Automation.{Automation, SpawnTemplate, StoredAutomation, AutomationRun, by_webhook}
use prospero.Automation.Store.{ConfigDb}
use prospero.Automation.Template.{Unfilled, interpolate}
use prospero.Automation.Engine.{Rules, automation}
use prospero.Automation.Engine.Signature.{IsSigned}
use prospero.Automation.Store.Recorded.{Recorded}
use prospero.Automation.Firing.{Provider}

-- The webhook is one that the automation accepts: it has a key, the body is signed with it, it is
-- enabled, and the body is JSON.
abbrev pub Accepts : Rules → StoredAutomation → String → Option String → Value → Type 0
Accepts rules s body signature payload =
    (secret : String) × (s.webhook_secret ≡ some secret)
    × IsSigned rules secret body signature
    × (s.automation.enabled ≡ true)
    × (rules.parse body ≡ ok payload)

module _ (provider : Provider) (rules : Rules) (db : ConfigDb) (body : String)
    (signature : Option String) (now : ℕ) where
  open provider use {Fleet, ensure_agent}

  -- What the run says of the fleet's answer.
  abbrev pub Answered : Result String → AutomationRun → Type 0
  Answered (ok agent) run = (run.agent_id ≡ some agent) × (run.error ≡ none)
  Answered (err e) run = (run.agent_id ≡ none) × (run.error ≡ some (rules.describe e))

  -- The template cannot be filled in and the fleet is as it was, or the fleet is asked for one agent.
  abbrev pub Asked :
      SpawnTemplate → String → Fleet → Option (Unfilled ⊎ String) → Fleet → AutomationRun → Type 0
  Asked template workspace fleet none fleet' run = ⊥
  Asked template workspace fleet (some (inl why)) fleet' run =
      (fleet' ≡ fleet) × (run.agent_id ≡ none) × (run.error ≡ some (rules.reason why))
  Asked template workspace fleet (some (inr task)) fleet' run =
      let (answer, fleet'') = ensure_agent fleet workspace (record {
        prompt = task;
        label = template.label;
        model = template.model;
        isolation_worktree = template.isolation_worktree;
        tool_allowlist = template.tool_allowlist;
        interactive = false;
        frontmatter_path = template.frontmatter_path;
        timeout_secs = template.timeout_secs;
        provider_ref = template.provider_ref;
        permission_posture = template.permission_posture;
      }) in
      (fleet' ≡ fleet'') × Answered answer run

  -- The run is of this moment, by the webhook, of the task that the payload gives.
  abbrev pub Ran : StoredAutomation → Value → Fleet → Fleet → AutomationRun → Type 0
  Ran s payload fleet fleet' run =
      (run.automation_id ≡ s.automation.id)
      × (run.fired_at ≡ now)
      × (run.source ≡ by_webhook)
      × Asked s.automation.template s.automation.workspace fleet
          (interpolate rules.render s.automation.template.task payload) fleet' run

  abbrev pub Unaccepted : Result StoredAutomation → Type 0
  Unaccepted found = ¬ (
      (s : StoredAutomation) × (payload : Value) × (found ≡ ok s)
      × Accepts rules s body signature payload)

  -- The webhook has fired the automation, or nothing has happened and there is an error.
  abbrev pub Outcome :
      Fleet → Result StoredAutomation → ConfigDb × Fleet × Result AutomationRun → Type 0
  Outcome fleet found (db', fleet', result) =
      ((s : StoredAutomation) × (payload : Value) × (run : AutomationRun) × (found ≡ ok s)
        × Accepts rules s body signature payload
        × Ran s payload fleet fleet' run
        × Recorded db run db'
        × (result ≡ ok run))
      ⊎ (Unaccepted found × (db' ≡ db) × (fleet' ≡ fleet) × ((e : CoreError) × (result ≡ err e)))
