-- ===== src/Automation/Firing/Tick.antt =====
-- That a tick fires what is due once.
use mathlib.Core.List.{append_assoc, append-nil}
use prospero.Prelude.{
  ℕ, ◌≡◌, refl, ap, sym, subst, ◌∙◌, Bool, true, false, Option, none, some, List, [], ◌∷◌, ◌++◌,
  String, str_eq, eq_iff, if_lem, ltb, arith, Option-cases, inl, inr,
}
use prospero.Automation.{Trigger, cron, webhook, StoredAutomation}
use prospero.Automation.Store.{ConfigDb, claimable, claim_row, claim_automation_fire, record_run}
use prospero.Automation.Engine.{Cron, Rules, due_fire, parsed, after_anchor}
use prospero.Automation.Firing.{
  Provider, run_and_save, owed, anchored, anchor_of, tick_one, tick_all, tick_automations,
}

-- The row has no id of another row.
abbrev pub IsAbsent : String → List StoredAutomation → Type 0
IsAbsent id [] = Unit
IsAbsent id (r ∷ rest) = (str_eq r.automation.id id ≡ false) × IsAbsent id rest

-- The ids of the rows are different, as the table's primary key has it.
abbrev pub IsKeyed : List StoredAutomation → Type 0
IsKeyed [] = Unit
IsKeyed (r ∷ rest) = IsAbsent r.automation.id rest × IsKeyed rest

-- The row as it is when a tick has been won.
abbrev fired_row : StoredAutomation → ℕ → StoredAutomation
fired_row s tick = record s { automation = record s.automation { last_fired_at = some tick } }

claim_row-fired :
    (before rest : List StoredAutomation) (s : StoredAutomation) (tick : ℕ)
    → IsAbsent s.automation.id before
    → claimable tick s.automation.last_fired_at ≡ true
    → claim_row s.automation.id tick (before ++ (s ∷ rest))
      ≡ (before ++ (fired_row s tick ∷ rest), true)
unfolding claim_row
claim_row-fired [] rest s tick h k = rw ((eq_iff s.automation.id s.automation.id).1 refl, k) refl
claim_row-fired (r ∷ before) rest s tick (h, hs) k = rw h (
    ap (λ (p : List StoredAutomation × Bool). (r ∷ p.0, p.1))
      (claim_row-fired before rest s tick hs k))

-- A tick that is owed comes after its anchor, and from then on is not owed.
parsed-after :
    (reason : Option String) (previous : Option ℕ) (since tick : ℕ)
    → parsed reason (after_anchor since previous) ≡ some tick
    → (ltb since tick ≡ true) × (parsed reason (after_anchor tick previous) ≡ none)
unfolding parsed after_anchor
parsed-after (some reason) previous since tick h = absurd (ground (arith, h))
parsed-after none none since tick h = absurd (ground (arith, h))
parsed-after none (some t) since tick h = ground (arith, h)

module _ (c : Cron) (now : ℕ) where
  -- What a row owes.
  abbrev pub owes : StoredAutomation → Option ℕ
  owes s = owed c now s.automation.enabled s.automation.trigger (anchor_of s.automation)

  -- No row owes a tick.
  abbrev pub IsSettled : List StoredAutomation → Type 0
  IsSettled [] = Unit
  IsSettled (r ∷ rest) = (owes r ≡ none) × IsSettled rest

  owed-claimable :
      (enabled : Bool) (trigger : Trigger) (created_at : ℕ) (last : Option ℕ) (tick : ℕ)
      → owed c now enabled trigger (anchored created_at last) ≡ some tick
      → (claimable tick last ≡ true) × (owed c now enabled trigger tick ≡ none)
  unfolding owed anchored due_fire claimable
  owed-claimable true (cron schedule) created_at none tick h =
      (refl, (parsed-after _ _ created_at tick h).1)
  owed-claimable true (cron schedule) created_at (some last) tick h = parsed-after _ _ last tick h
  owed-claimable true webhook created_at last tick h = absurd (ground (arith, h))
  owed-claimable false trigger created_at last tick h = absurd (ground (arith, h))

  IsSettled-append :
      (rows : List StoredAutomation) (s : StoredAutomation)
      → IsSettled rows
      → owes s ≡ none
      → IsSettled (rows ++ (s ∷ []))
  IsSettled-append [] s h k = (k, tt)
  IsSettled-append (r ∷ rows) s (h, hs) k = (h, IsSettled-append rows s hs k)

apart_last :
    (before rest : List StoredAutomation) (s : StoredAutomation) (id : String)
    → IsAbsent id (before ++ (s ∷ rest))
    → str_eq id s.automation.id ≡ false
apart_last [] rest s id h = ground (arith, h, eq_iff id s.automation.id, eq_iff s.automation.id id)
apart_last (r ∷ before) rest s id (h, hs) = apart_last before rest s id hs

-- In a keyed table a row that follows others has an id that none of them has.
IsAbsent-before :
    (before rest : List StoredAutomation) (s : StoredAutomation)
    → IsKeyed (before ++ (s ∷ rest))
    → IsAbsent s.automation.id before
IsAbsent-before [] rest s h = tt
IsAbsent-before (r ∷ before) rest s (h, hs) =
    (apart_last before rest s r.automation.id h, IsAbsent-before before rest s hs)

IsAbsent-fired :
    (before rest : List StoredAutomation) (s : StoredAutomation) (tick : ℕ) (id : String)
    → IsAbsent id (before ++ (s ∷ rest))
    → IsAbsent id (before ++ (fired_row s tick ∷ rest))
IsAbsent-fired [] rest s tick id h = h
IsAbsent-fired (r ∷ before) rest s tick id (h, hs) = (h, IsAbsent-fired before rest s tick id hs)

IsKeyed-fired :
    (before rest : List StoredAutomation) (s : StoredAutomation) (tick : ℕ)
    → IsKeyed (before ++ (s ∷ rest))
    → IsKeyed (before ++ (fired_row s tick ∷ rest))
IsKeyed-fired [] rest s tick h = h
IsKeyed-fired (r ∷ before) rest s tick (h, hs) =
    (IsAbsent-fired before rest s tick r.automation.id h, IsKeyed-fired before rest s tick hs)

module _ (provider : Provider) (rules : Rules) (c : Cron) (now : ℕ) where
  open provider use {Fleet}

  tick_one-fired :
      (db : ConfigDb) (fleet : Fleet) (s : StoredAutomation) (tick : ℕ)
      (rows : List StoredAutomation)
      → claim_row s.automation.id tick db.automations ≡ (rows, true)
      → (tick_one provider rules db fleet s (some tick)).0.automations ≡ rows
  unfolding tick_one claim_automation_fire run_and_save record_run
  tick_one-fired db fleet s tick rows h =
      if_lem (λ (p : ConfigDb × Fleet). p.0.automations ≡ rows)
        (claim_row s.automation.id tick db.automations).1
        (ap (λ (p : List StoredAutomation × Bool). p.0) h)
        (ap (λ (p : List StoredAutomation × Bool). p.0) h)

  tick_all-IsSettled :
      (rest before : List StoredAutomation) (db : ConfigDb) (fleet : Fleet)
      → db.automations ≡ before ++ rest
      → IsKeyed (before ++ rest)
      → IsSettled c now before
      → IsSettled c now (tick_all provider rules c now db fleet rest).0.automations
  unfolding tick_all anchor_of anchored tick_one
  tick_all-IsSettled [] before db fleet h k q =
      subst (IsSettled c now) (sym (h ∙ append-nil before)) q
  tick_all-IsSettled (s ∷ rest) before db fleet h k q =
      let P = λ (o : Option ℕ).
        let (db', fleet') = tick_one provider rules db fleet s o in
        IsSettled c now (tick_all provider rules c now db' fleet' rest).0.automations in
      elim (Option-cases (owes c now s)) [
        | inl e ↦ subst P (sym e) (
            tick_all-IsSettled rest (before ++ (s ∷ [])) db fleet
              (h ∙ sym (append_assoc before (s ∷ []) rest))
              (subst IsKeyed (sym (append_assoc before (s ∷ []) rest)) k)
              (IsSettled-append c now before s q e))
        | inr (tick, e) ↦
            let a = s.automation in
            let (claimed, paid) =
              owed-claimable c now a.enabled a.trigger a.created_at a.last_fired_at tick e in
            let (db', fleet') = tick_one provider rules db fleet s (some tick) in
            let s' = fired_row s tick in
            let rows = tick_one-fired db fleet s tick (before ++ (s' ∷ rest)) (
              ap (claim_row a.id tick) h
              ∙ claim_row-fired before rest s tick (IsAbsent-before before rest s k) claimed) in
            subst P (sym e) (
              tick_all-IsSettled rest (before ++ (s' ∷ [])) db' fleet'
                (rows ∙ sym (append_assoc before (s' ∷ []) rest))
                (subst IsKeyed (sym (append_assoc before (s' ∷ []) rest))
                  (IsKeyed-fired before rest s tick k))
                (IsSettled-append c now before s' q paid))
      ]

  tick_all_settled :
      (rows : List StoredAutomation) (db : ConfigDb) (fleet : Fleet)
      → IsSettled c now rows
      → tick_all provider rules c now db fleet rows ≡ (db, fleet)
  unfolding tick_all tick_one
  tick_all_settled [] db fleet h = refl
  tick_all_settled (s ∷ rows) db fleet (h, hs) =
      ap (λ (p : ConfigDb × Fleet). tick_all provider rules c now p.0 p.1 rows)
        (ap (tick_one provider rules db fleet s) h)
      ∙ tick_all_settled rows db fleet hs

  -- A tick leaves no automation with a tick that it owes, and so a second one at the same time does
  -- nothing: it changes neither the store nor the fleet, whatever the first one's spawns came to.
  pub tick_automations_again :
      (db : ConfigDb) (fleet : Fleet)
      → IsKeyed db.automations
      → let (db', fleet') = tick_automations provider rules c now db fleet in
        IsSettled c now db'.automations
        × (tick_automations provider rules c now db' fleet' ≡ (db', fleet'))
  unfolding tick_automations
  tick_automations_again db fleet k =
      let (db', fleet') = tick_all provider rules c now db fleet db.automations in
      let settled = tick_all-IsSettled db.automations [] db fleet refl k tt in
      (settled, tick_all_settled db'.automations db' fleet' settled)
