-- ===== src/Automation/Store/Claims.antt =====
-- Each tick of an automation is won at most once, whoever claims it.
use prospero.Prelude.{
  ℕ, ◌<◌, none, ◌≡◌, refl, subst, Bool, true, false, ◌&&◌, Option, some, List, [], ◌∷◌, String,
  str_eq, eq_iff, arith, if◌then◌else◌,
}
use prospero.Automation.{StoredAutomation}
use prospero.Automation.Store.{
  ConfigDb, upsert_row, upsert_automation, claimable, claim_row, claim_automation_fire, last_fired,
}

-- What a replica may do to the table, but deleting.
pub data Access : Type 0 where
  claiming : (id : String) (fire_at : ℕ) → Access
  editing : StoredAutomation → Access

-- The times that were won of the automation `id`, in order.
unfoldable pub wins : String → List Access → ConfigDb → List ℕ
wins id [] db = []
wins id (editing s ∷ rest) db = wins id rest (upsert_automation db s)
wins id (claiming other fire_at ∷ rest) db =
    let (db', won) = claim_automation_fire db other fire_at in
    let later = wins id rest db' in if won && str_eq other id then fire_at ∷ later else later

-- The time lies after the last one, if there is one.
abbrev pub LiesAfter : Option ℕ → ℕ → Type 0
LiesAfter none t = Unit
LiesAfter (some last) t = last < t

-- The times rise strictly, from after the last fire.
abbrev pub RisesAfter : Option ℕ → List ℕ → Type 0
RisesAfter last [] = Unit
RisesAfter last (t ∷ rest) = LiesAfter last t × RisesAfter (some t) rest

claimable-LiesAfter : (t : ℕ) (last : Option ℕ) → claimable t last ≡ true → LiesAfter last t
unfolding claimable
claimable-LiesAfter t none h = tt
claimable-LiesAfter t (some last) h = ground arith

upsert-last_fired :
    (s : StoredAutomation) (rows : List StoredAutomation) (id : String)
    → last_fired (upsert_row s rows) id ≡ last_fired rows id
unfolding last_fired upsert_row
upsert-last_fired s [] id = ground arith
upsert-last_fired s (r ∷ rest) id =
    ground (arith, eq_iff r.automation.id s.automation.id, upsert-last_fired s rest id)

claim-last_fired :
    (other id : String) (fire_at : ℕ) (rows : List StoredAutomation)
    → last_fired (claim_row other fire_at rows).0 id ≡ (
        if (claim_row other fire_at rows).1 && str_eq other id
        then some fire_at
        else last_fired rows id)
unfolding last_fired claim_row
claim-last_fired other id fire_at [] = refl
claim-last_fired other id fire_at (r ∷ rest) = ground (
  arith,
  eq_iff r.automation.id other,
  eq_iff other id,
  eq_iff r.automation.id id,
  claim-last_fired other id fire_at rest,
)

claim-claimable :
    (id : String) (fire_at : ℕ) (rows : List StoredAutomation)
    → (claim_row id fire_at rows).1 ≡ true
    → claimable fire_at (last_fired rows id) ≡ true
unfolding last_fired claim_row
claim-claimable id fire_at [] h = ground arith
claim-claimable id fire_at (r ∷ rest) h = ground (arith, claim-claimable id fire_at rest)

rise :
    (won : Bool) (fire_at : ℕ) (last now : Option ℕ) (later : List ℕ)
    → now ≡ (if won then some fire_at else last)
    → (won ≡ true → claimable fire_at last ≡ true)
    → RisesAfter now later
    → RisesAfter last (if won then fire_at ∷ later else later)
rise true fire_at last now later e c r =
    (claimable-LiesAfter fire_at last (c refl), subst (λ o. RisesAfter o later) e r)
rise false fire_at last now later e c r = subst (λ o. RisesAfter o later) e r

won_after :
    (other id : String) (fire_at : ℕ) (rows : List StoredAutomation)
    → ((claim_row other fire_at rows).1 && str_eq other id) ≡ true
    → claimable fire_at (last_fired rows id) ≡ true
won_after other id fire_at rows h =
    subst (λ i. claimable fire_at (last_fired rows i) ≡ true) (ground (arith, eq_iff other id))
      (claim-claimable other fire_at rows (ground arith))

-- However the replicas interleave their claims with edits of automations, as long as none deletes one, the
-- times won of an automation rise strictly, from after its last fire: no tick is won twice.
pub wins-RisesAfter :
    (id : String) (l : List Access) (db : ConfigDb)
    → RisesAfter (last_fired db.automations id) (wins id l db)
unfolding wins upsert_automation claim_automation_fire
wins-RisesAfter id [] db = tt
wins-RisesAfter id (editing s ∷ rest) db =
    subst (λ o. RisesAfter o (wins id rest (upsert_automation db s)))
      (upsert-last_fired s db.automations id) (wins-RisesAfter id rest (upsert_automation db s))
wins-RisesAfter id (claiming other fire_at ∷ rest) db =
    let (rows, won) = claim_row other fire_at db.automations in
    rise (won && str_eq other id) fire_at (last_fired db.automations id) (last_fired rows id)
      (wins id rest (record db { automations = rows }))
      (claim-last_fired other id fire_at db.automations)
      (λ h. won_after other id fire_at db.automations h)
      (wins-RisesAfter id rest (record db { automations = rows }))
