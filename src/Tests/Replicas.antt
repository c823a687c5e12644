-- ===== src/Tests/Replicas.antt =====
-- Leases, the registry, automations and deadlines.
use Prim.Native.String.{◌++◌ as str_append}
use prospero.Prelude.{
  ◌<◌, ℕ, ◌-◌, ◌^◌, ◌≡◌, ◌≢◌, ◌↔◌, refl, true, false, Option, none, some, List, [], ◌∷◌, String,
  bytes, cut, first_cut, strip_prefix, width, eq_iff, arith, In, get as row_at, insert as put_row,
}
use prospero.Error.{ok, err, store}
use prospero.Model.{Agent, running, supervised}
use prospero.Ownership.{
  Lease, Row, Database, LeasedOwnership, try_acquire, renew, release, claimed, granted,
}
use prospero.Ownership.Steps.{Action, acquiring, releasing, passing, act_all, act}
use prospero.Ownership.Exclusion.{held_exclusively}
use prospero.Ownership.Fencing.{fenced, epoch_restarts}
use prospero.Automation.{StoredAutomation, cron}
use prospero.Automation.Store.{
  ConfigDb, last_fired, claim_automation_fire, claim_row, claimable, upsert_automation, upsert_row,
}
use prospero.Automation.Store.Claims.{Access, claiming, editing, wins, RisesAfter, wins-RisesAfter}
use prospero.Registry.{same_path}
use prospero.Automation.Template.{split_all}
use prospero.Deadline.{expired, deadline_at, Overdue}
use prospero.Deadline.Expiry.{expired_iff, huge_timeout}

abbrev r1 : LeasedOwnership
r1 = record { replica_id = "r1"; ttl = 30; held = [] }

abbrev r2 : LeasedOwnership
r2 = record { replica_id = "r2"; ttl = 30; held = [] }

distinct : r2.replica_id ≢ r1.replica_id
distinct e = ground (arith, eq_iff "r2" "r1")

abbrev free : Database
free = record { now = 100; leases = [] }

abbrev first_lease : Lease
first_lease = record { stream_key = "s"; epoch = 1 }

abbrev busy : List Action
busy = acquiring true r2 "s" ∷ passing 20 ∷ releasing true r2 "s" ∷ []

held_exclusively_example :
    let later = act_all busy (try_acquire true r1 free "s").1 in
    (try_acquire true r2 later "s" ≡ (r2, later, none))
    × ((renew true r1 later first_lease).1 ≡ ok tt)
unfolding try_acquire granted claimed act_all act release row_at put_row
held_exclusively_example =
    held_exclusively r1 r2 free "s" first_lease busy refl (distinct, (tt, (distinct, tt))) distinct
      (omega arith)

-- The lease of `r1` has run out.
abbrev row : Row
row = record { owner_replica_id = "r1"; epoch = 4; expires_at = 90 }

abbrev old : Database
old = record { now = 100; leases = ("s", row) ∷ [] }

abbrev back : List Action
back = passing 50 ∷ acquiring true r1 "s" ∷ []

fenced_example :
    let later = act_all back (try_acquire true r2 old "s").1 in
    renew true r1 later (record { stream_key = "s"; epoch = 4 })
    ≡ (later, err (store (str_append "lease for " (str_append "s" " lost (stolen or expired)"))))
unfolding try_acquire granted claimed row_at
fenced_example =
    fenced r1 r2 old "s" row (record { stream_key = "s"; epoch = 5 }) back refl refl distinct refl
      (tt, (tt, tt))

epoch_restarts_example :
    (try_acquire true r2 (release true r1 old "s").1 "s").2
    ≡ some (record { stream_key = "s"; epoch = 1 })
unfolding row_at
epoch_restarts_example = epoch_restarts r1 r2 old "s" row refl refl

abbrev nightly : StoredAutomation
nightly = record {
  automation = record {
    id = "nightly";
    workspace = "w";
    trigger = cron "0 3 * * *";
    template = record {
      task = "tidy";
      label = none;
      model = none;
      tool_allowlist = none;
      frontmatter_path = none;
      provider_ref = none;
      timeout_secs = none;
      isolation_worktree = true;
      permission_posture = supervised;
    };
    enabled = true;
    created_at = 10;
    last_fired_at = some 50;
  };
  webhook_secret = none;
}

abbrev claims : List Access
claims =
    claiming "nightly" 60 ∷ editing nightly ∷ claiming "nightly" 60 ∷ claiming "nightly" 70 ∷ []

abbrev config_db : ConfigDb
config_db = record { automations = nightly ∷ []; automation_runs = [] }

wins-RisesAfter_example :
    RisesAfter (last_fired (nightly ∷ []) "nightly") (wins "nightly" claims config_db)
wins-RisesAfter_example = wins-RisesAfter "nightly" claims config_db

-- Of three claims two are won.
two_wins : wins "nightly" claims config_db ≡ 60 ∷ 70 ∷ []
unfolding wins claim_automation_fire claim_row claimable upsert_automation upsert_row
two_wins = refl

abbrev agent : Agent
agent = record {
  id = "a";
  name = "a";
  workspace = "w";
  status = running;
  started_at = "";
  isolated = true;
  interactive = false;
  session_dir = "";
  permission_posture = supervised;
  reason = none;
  detail = none;
}

abbrev parse : String → Option ℕ
parse raw = some 5

expired_iff_example :
    In ("a", "t") (expired parse 9 (("a", "t") ∷ []) (agent ∷ []))
    ↔ ((a : Agent) × In a (agent ∷ []) × Overdue parse 9 (("a", "t") ∷ []) "a" "t" a)
expired_iff_example = expired_iff parse 9 (("a", "t") ∷ []) (agent ∷ []) "a" "t"

huge_timeout_example :
    (at : ℕ) × (deadline_at 2000000 1000000 (2 ^ 64 - 1) ≡ some (some at)) × (at < 1000000)
huge_timeout_example =
    huge_timeout 2000000 1000000 (2 ^ 64 - 1) (omega arith) (omega arith) (omega arith)

same_paths :
    (same_path "/r/a" "//r/./a/" ≡ true)
    × (same_path "/r" "r" ≡ false)
    × (same_path "./r" "r" ≡ false)
    × (same_path "/" "//" ≡ true)
unfolding same_path split_all cut first_cut strip_prefix bytes width
same_paths = (refl, refl, refl, refl)
