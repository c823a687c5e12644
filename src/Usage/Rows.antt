-- ===== src/Usage/Rows.antt =====
-- Each row of the aggregate counts the events of its workspace and day, and no others.
use prospero.Prelude.{
  ◌≡◌, refl, ap, ◌∙◌, Bool, true, false, ◌&&◌, Option, none, some, List, [], ◌∷◌, String, str_eq,
  eq_iff, filter, arith, Option-cases, Bool-cases, inl, inr, if◌then◌else◌,
}
use prospero.Model.{AgentStatus, done, failed, killed, crashed, spawning, running, idle}
use prospero.Model.Event.{
  F64, FleetEvent, EventKind, agent_finished, status_changed, agent_timed_out,
}
use prospero.Usage.{
  UsageRow, day_of, interesting, fresh_row, count_status, tally, entry, count_event, count_all,
  aggregate_usage, row_of,
}

unfoldable pub same_day : String → Option String → Bool
same_day day none = false
same_day day (some d) = str_eq d day

-- The event counts for the workspace and the day.
unfoldable pub relevant : {V : Type 0} → String → String → FleetEvent V → Bool
unfolding same_day
relevant workspace day e =
    interesting e.kind && (str_eq e.repo workspace && same_day day (day_of e.ts))

or_fresh : String → String → Option UsageRow → UsageRow
or_fresh workspace day none = fresh_row workspace day
or_fresh workspace day (some r) = r

status-keys :
    (r : UsageRow) (s : AgentStatus)
    → ((count_status r s).workspace ≡ r.workspace) × ((count_status r s).day ≡ r.day)
unfolding count_status
status-keys r done = (refl, refl)
status-keys r failed = (refl, refl)
status-keys r killed = (refl, refl)
status-keys r crashed = (refl, refl)
status-keys r spawning = (refl, refl)
status-keys r running = (refl, refl)
status-keys r idle = (refl, refl)

same_key :
    (w d repo day : String)
    → (str_eq repo w && str_eq day d) ≡ true
    → fresh_row repo day ≡ fresh_row w d
same_key w d repo day h =
    let e : repo ≡ w = ground (arith, eq_iff repo w) in
    let e' : day ≡ d = ground (arith, eq_iff day d) in cc

gated :
    (w d : String) (rows' rows : List UsageRow) (x : Option UsageRow) (i c : Bool)
    → row_of w d rows' ≡ (if c then x else row_of w d rows)
    → row_of w d (if i then rows' else rows) ≡ (if i && c then x else row_of w d rows)
gated w d rows' rows x true c h = h
gated w d rows' rows x false c h = refl

never : {A : Type 0} (i c : Bool) (x y : A) → y ≡ (if i && (c && false) then x else y)
never true true x y = refl
never true false x y = refl
never false c x y = refl

module _ (add : F64 → F64 → F64) {V : Type 0} where
  abbrev pub tally_all : UsageRow → List (FleetEvent V) → UsageRow
  tally_all row [] = row
  tally_all row (e ∷ rest) = tally_all (tally add row e.kind) rest

  -- What a row becomes: there is none until the first event.
  abbrev pub counted : String → String → Option UsageRow → List (FleetEvent V) → Option UsageRow
  counted workspace day none [] = none
  counted workspace day none (e ∷ rest) =
      some (tally_all (tally add (fresh_row workspace day) e.kind) rest)
  counted workspace day (some r) events = some (tally_all r events)

  tally-keys :
      (r : UsageRow) (k : EventKind V)
      → ((tally add r k).workspace ≡ r.workspace) × ((tally add r k).day ≡ r.day)
  unfolding tally
  tally-keys r (agent_finished outcome cost_usd turns) = (refl, refl)
  tally-keys r (status_changed from to) = status-keys r to
  tally-keys r (agent_timed_out deadline) = (refl, refl)
  tally-keys r _ = (refl, refl)

  first_row :
      {a b : UsageRow} (c : Bool) (k : EventKind V)
      → (c ≡ true → a ≡ b)
      → (if c then some (tally add a k) else none) ≡ (if c then some (tally add b k) else none)
  first_row true k e = ap (λ r. some (tally add r k)) (e refl)
  first_row false k e = refl

  key_test :
      (w d : String) (r : UsageRow) (k : EventKind V)
      → (str_eq (tally add r k).workspace w && str_eq (tally add r k).day d)
        ≡ (str_eq r.workspace w && str_eq r.day d)
  key_test w d r k = cc ((tally-keys r k).0, (tally-keys r k).1)

  matched :
      (w d : String) (r : UsageRow) (k : EventKind V) (o : Option UsageRow) (b c : Bool)
      → b ≡ c
      → (if b then some (tally add r k) else o) ≡ (
          if c
          then some (tally add (or_fresh w d (if b then some r else o)) k)
          else (if b then some r else o))
  unfolding or_fresh
  matched w d r k o true true e = refl
  matched w d r k o true false e = ground arith
  matched w d r k o false true e = ground arith
  matched w d r k o false false e = refl

  unmatched :
      (w d : String) (r : UsageRow) (k : EventKind V) (o o' : Option UsageRow) (b c : Bool)
      → (b ≡ true → c ≡ false)
      → o' ≡ (if c then some (tally add (or_fresh w d o) k) else o)
      → (if b then some r else o') ≡ (
          if c
          then some (tally add (or_fresh w d (if b then some r else o)) k)
          else (if b then some r else o))
  unmatched w d r k o o' true true e h = ground (arith, e refl)
  unmatched w d r k o o' true false e h = refl
  unmatched w d r k o o' false c e h = h

  entry-row :
      (w d repo day : String) (k : EventKind V) (rows : List UsageRow)
      → row_of w d (entry add repo day k rows) ≡ (
          if str_eq repo w && str_eq day d
          then some (tally add (or_fresh w d (row_of w d rows)) k)
          else row_of w d rows)
  unfolding entry or_fresh fresh_row
  entry-row w d repo day k [] =
      ap (λ c. if c then some (tally add (fresh_row repo day) k) else none)
        (key_test w d (fresh_row repo day) k)
      ∙ first_row (str_eq repo w && str_eq day d) k (same_key w d repo day)
  entry-row w d repo day k (r ∷ rest) =
      elim (Bool-cases (str_eq r.workspace repo && str_eq r.day day)) [
        | inl e ↦ rw (e) (
            ap (λ c. if c then some (tally add r k) else row_of w d rest) (key_test w d r k)
            ∙ matched w d r k (row_of w d rest) (str_eq r.workspace w && str_eq r.day d)
                (str_eq repo w && str_eq day d)
                (ground (arith, eq_iff r.workspace repo, eq_iff r.day day)))
        | inr e ↦ rw (e) (
            unmatched w d r k (row_of w d rest) (row_of w d (entry add repo day k rest))
              (str_eq r.workspace w && str_eq r.day d) (str_eq repo w && str_eq day d)
              (λ h. ground (
                arith,
                eq_iff r.workspace repo,
                eq_iff r.day day,
                eq_iff r.workspace w,
                eq_iff r.day d,
                eq_iff repo w,
                eq_iff day d,
              ))
              (entry-row w d repo day k rest))
      ]

  dated-row :
      (w d : String) (rows : List UsageRow) (e : FleetEvent V) (o : Option String)
      → row_of w d (elim o [
        | none ↦ rows
        | some day ↦ if interesting e.kind then entry add e.repo day e.kind rows else rows
      ])
        ≡ (if interesting e.kind && (str_eq e.repo w && same_day d o)
            then some (tally add (or_fresh w d (row_of w d rows)) e.kind)
            else row_of w d rows)
  unfolding same_day
  dated-row w d rows e none = never (interesting e.kind) (str_eq e.repo w) _ (row_of w d rows)
  dated-row w d rows e (some day) =
      gated w d (entry add e.repo day e.kind rows) rows
        (some (tally add (or_fresh w d (row_of w d rows)) e.kind)) (interesting e.kind)
        (str_eq e.repo w && str_eq day d) (entry-row w d e.repo day e.kind rows)

  event-row :
      (w d : String) (rows : List UsageRow) (e : FleetEvent V)
      → row_of w d (count_event add rows e) ≡ (
          if relevant w d e
          then some (tally add (or_fresh w d (row_of w d rows)) e.kind)
          else row_of w d rows)
  unfolding count_event relevant
  event-row w d rows e = dated-row w d rows e (day_of e.ts)

  counted-step :
      (w d : String) (o : Option UsageRow) (e : FleetEvent V) (rest : List (FleetEvent V))
      (b : Bool)
      → counted w d (if b then some (tally add (or_fresh w d o) e.kind) else o) rest
        ≡ counted w d o (if b then e ∷ rest else rest)
  unfolding or_fresh
  counted-step w d none e rest true = refl
  counted-step w d (some r) e rest true = refl
  counted-step w d o e rest false = refl

  count_all-row :
      (w d : String) (rows : List UsageRow) (events : List (FleetEvent V))
      → row_of w d (count_all add rows events)
        ≡ counted w d (row_of w d rows) (filter (relevant w d) events)
  unfolding count_all
  count_all-row w d rows [] = elim (Option-cases (row_of w d rows)) [
    | inl e ↦ rw (e) refl
    | inr (r, e) ↦ rw (e) refl
  ]
  count_all-row w d rows (e ∷ rest) =
      count_all-row w d (count_event add rows e) rest
      ∙ (ap (λ o. counted w d o (filter (relevant w d) rest)) (event-row w d rows e)
          ∙ counted-step w d (row_of w d rows) e (filter (relevant w d) rest) (relevant w d e))

  pub counted-row :
      (w d : String) (events : List (FleetEvent V))
      → row_of w d (aggregate_usage add events) ≡ counted w d none (filter (relevant w d) events)
  unfolding aggregate_usage
  counted-row w d events = count_all-row w d [] events
