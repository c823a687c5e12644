-- ===== src/Tests/Triggers.antt =====
-- Automations that fire.
use prospero.Prelude.{
  ℕ, suc, ◌≡◌, inr, refl, true, none, some, [], ◌∷◌, String, bytes, cut, first_cut, strip_prefix,
  trim, trim_end, trim_start, width,
}
use prospero.Error.{ok}
use prospero.Json.{Value, text, object, end, member, get_entry, get_field}
use prospero.Model.{supervised}
use prospero.Automation.{StoredAutomation, cron, webhook}
use prospero.Automation.Store.{ConfigDb, claim_automation_fire, claim_row, claimable}
use prospero.Automation.Template.{
  interpolate, closed_slot, interpolate_from, lookup, next_slot, split_all, truncate,
}
use prospero.Automation.Template.Bounds.{Fills, interpolate-Fills}
use prospero.Automation.Engine.{Cron, Rules, automation, due_fire}
use prospero.Automation.Firing.{
  Provider, tick_automations, anchor_of, anchored, owed, run_and_save, run_automation, run_with,
  tick_all, tick_one,
}
use prospero.Automation.Firing.Tick.{IsSettled, tick_automations_again}

abbrev render : Value → String
render v = "?"

abbrev payload : Value
payload = object (member "user" (object (member "login" (text "octo{{x}}cat") end)) end)

-- What fills a slot is not read for slots of its own.
greeting : interpolate render "Hi {{ user.login }}!" payload ≡ some (inr "Hi octo{{x}}cat!")
unfolding interpolate interpolate_from next_slot cut first_cut strip_prefix closed_slot lookup
    split_all trim trim_end trim_start bytes width get_field get_entry truncate
greeting = refl

interpolate-Fills_example :
    Fills (bytes "Hi {{ user.login }}!") (interpolate render "Hi {{ user.login }}!" payload)
interpolate-Fills_example = interpolate-Fills render "Hi {{ user.login }}!" payload

abbrev hourly : StoredAutomation
hourly = record {
  automation = record {
    id = "hourly";
    workspace = "w";
    trigger = cron "0 * * * *";
    template = record {
      task = "tidy up";
      label = none;
      model = none;
      tool_allowlist = none;
      frontmatter_path = none;
      provider_ref = none;
      timeout_secs = some 600;
      isolation_worktree = true;
      permission_posture = supervised;
    };
    enabled = true;
    created_at = 100;
    last_fired_at = none;
  };
  webhook_secret = none;
}

abbrev on_push : StoredAutomation
on_push = record {
  automation = record hourly.automation { id = "on_push"; trigger = webhook };
  webhook_secret = some "key";
}

abbrev db : ConfigDb
db = record { automations = hourly ∷ on_push ∷ []; automation_runs = [] }

-- A fleet that counts its spawns.
abbrev counting : Provider
counting = record { Fleet = ℕ; ensure_agent = λ n w req. (ok "a", suc n) }

abbrev rules : Rules
rules = record {
  render = render;
  reason = λ why. "unfilled";
  describe = λ e. "failed";
  hex = λ digits. some (1 ∷ []);
  hmac = λ secret body. 1 ∷ [];
  parse = λ body. ok payload;
}

abbrev clock : Cron
clock = record { refusal = λ schedule. none; previous = λ schedule now. some 3600 }

tick_fires_once : (tick_automations counting rules clock 4000 db 0).1 ≡ 1
unfolding tick_automations tick_all tick_one owed due_fire anchor_of anchored claim_automation_fire
    claim_row claimable run_and_save run_automation run_with
tick_fires_once = refl

tick_automations_again_example :
    let (db', fleet') = tick_automations counting rules clock 4000 db 0 in
    IsSettled clock 4000 db'.automations
    × (tick_automations counting rules clock 4000 db' fleet' ≡ (db', fleet'))
tick_automations_again_example =
    tick_automations_again counting rules clock 4000 db 0 ((refl, tt), (tt, tt))
