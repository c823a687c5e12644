-- ===== src/Automation/Engine.antt =====
-- The rules of crates/core/src/automation.rs, and the making of automations by its `AutomationEngine`, over
-- the config store of Automation/Store. The cron crate, the digest of the hmac crate, the reading of
-- hexadecimal digits and of JSON, and the random key are parameters.
pub mod Signature
use prospero.Prelude.{
  ℕ, Bool, true, false, Option, none, some, String, str_eq, if◌then◌else◌, any, find, ltb,
  strip_prefix, trim,
}
use prospero.Error.{CoreError, Result, ok, err, automation_not_found, conflict, invalid_config}
use prospero.Json.{Value}
use prospero.Automation.{Trigger, cron, webhook, SpawnTemplate, Automation, StoredAutomation}
use prospero.Automation.Store.{ConfigDb, upsert_automation}
use prospero.Automation.Template.{Unfilled, normalize_schedule}
use prospero.Auth.{Bytes, bytes_eq}
use prospero.Fleet.Control.{SpawnRequest}

-- The cron crate: why a schedule does not parse, and the last tick of one before a time.
pub record Cron : Type 0 where
  pub refusal : String → Option String
  pub previous : String → ℕ → Option ℕ

-- The rest of what the engine is given.
pub record Rules : Type 0 where
  pub render : Value → String
  pub reason : Unfilled → String
  pub describe : CoreError → String
  pub hex : String → Option Bytes
  pub hmac : (secret body : String) → Bytes
  pub parse : String → Result Value

-- A tick that is due: the last one before now, if it comes after the anchor.
unfoldable pub after_anchor : ℕ → Option ℕ → Option ℕ
after_anchor since none = none
after_anchor since (some tick) = if ltb since tick then some tick else none

unfoldable pub parsed : Option String → Option ℕ → Option ℕ
parsed none tick = tick
parsed (some reason) tick = none

unfoldable pub due_fire : Cron → String → (since now : ℕ) → Option ℕ
unfolding after_anchor parsed
due_fire c schedule since now =
    let normal = normalize_schedule schedule in
    parsed (c.refusal normal) (after_anchor since (c.previous normal now))

unfoldable pub spawn_request_from : SpawnTemplate → String → SpawnRequest
spawn_request_from template task = record {
  prompt = task;
  label = template.label;
  model = template.model;
  isolation_worktree = template.isolation_worktree;
  tool_allowlist = template.tool_allowlist;
  interactive = false;
  frontmatter_path = template.frontmatter_path;
  timeout_secs = template.timeout_secs;
  provider_ref = template.provider_ref;
  permission_posture = template.permission_posture;
}

unfoldable pub digest_is : Bytes → Option Bytes → Bool
digest_is digest none = false
digest_is digest (some provided) = bytes_eq provided digest

unfoldable pub signed_with : Rules → (secret body : String) → Option String → Bool
unfolding digest_is
signed_with rules secret body none = false
signed_with rules secret body (some digits) = digest_is (rules.hmac secret body) (rules.hex digits)

unfoldable pub verify_webhook_signature : Rules → (secret body : String) → Option String → Bool
unfolding signed_with
verify_webhook_signature rules secret body none = false
verify_webhook_signature rules secret body (some header) =
    signed_with rules secret body (strip_prefix "sha256=" (trim header))

unfoldable pub automation : ConfigDb → String → Result StoredAutomation
automation db id =
    elim (find (λ (s : StoredAutomation). str_eq s.automation.id id) db.automations) [
      | none ↦ err (automation_not_found id)
      | some s ↦ ok s
    ]

-- The key of a new automation: only a webhook has one.
secret_for : Trigger → String → Option String
secret_for (cron schedule) key = none
secret_for webhook key = some key

refusal_of : Cron → Trigger → Option String
refusal_of c (cron schedule) = c.refusal (normalize_schedule schedule)
refusal_of c webhook = none

create_checked :
    ConfigDb
    → Automation
    → (key : String) → Option String
    → Bool
    → ConfigDb × Result StoredAutomation
unfolding secret_for
create_checked db a key (some reason) taken = (db, err (invalid_config reason))
create_checked db a key none true = (db, err (conflict a.id))
create_checked db a key none false =
    let stored : StoredAutomation = record {
      automation = a;
      webhook_secret = secret_for a.trigger key;
    } in
    (upsert_automation db stored, ok stored)

-- The automation as it is to be stored: created now and not yet fired.
unfoldable pub create_automation_at :
    Cron
    → ConfigDb
    → Automation
    → (key : String) (created_at : ℕ) → ConfigDb × Result StoredAutomation
unfolding refusal_of create_checked
create_automation_at c db body key created_at =
    create_checked db (record body { created_at = created_at; last_fired_at = none }) key
      (refusal_of c body.trigger)
      (any (λ (s : StoredAutomation). str_eq s.automation.id body.id) db.automations)

enabled_as : ConfigDb → Bool → Result StoredAutomation → ConfigDb × Result (Unit {0})
enabled_as db enabled (err e) = (db, err e)
enabled_as db enabled (ok s) = (
  upsert_automation db (record s { automation = record s.automation { enabled = enabled } }),
  ok tt,
)

unfoldable pub set_automation_enabled : ConfigDb → String → Bool → ConfigDb × Result (Unit {0})
unfolding enabled_as
set_automation_enabled db id enabled = enabled_as db enabled (automation db id)
