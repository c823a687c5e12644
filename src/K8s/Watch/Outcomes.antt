-- ===== src/K8s/Watch/Outcomes.antt =====
-- How often a run's end is recorded.
use prospero.Prelude.{
  ℕ, ◌+◌, ◌≤◌, ◌≡◌, refl, ◌∙◌, Bool, true, false, ◌&&◌, List, [], ◌∷◌, ◌++◌, String, str_eq, eq_iff,
  if◌then◌else◌, arith,
}
use prospero.Error.{ok, err, Result}
use prospero.Model.Ends.{at_end, is_terminal_lem}
use prospero.Model.Event.{EventKind}
use prospero.Fleet.Manager.{Emission, contains}
use prospero.K8s.{CalibanTask}
use prospero.Model.Change.{FleetChange, discovered, status_changed, gone, workspace_health}
use prospero.K8s.Watch.{
  Watch, Pass, is_outcome, has_outcome, already_recorded_terminal, record_change, emit_change,
  emit_changes, forget_terminal, forget_gone, forget_all, pass_over, pass_listed, pass, restarted,
}

module _ {V : Type 0} where
  -- The event ends a run.
  abbrev pub ends_run : EventKind V → Bool
  ends_run (EventKind.status_changed from to) = at_end to
  ends_run _ = false

  is_outcome_lem : (k : EventKind V) → is_outcome k ≡ ends_run k
  unfolding is_outcome
  is_outcome_lem (EventKind.status_changed from to) = is_terminal_lem to
  is_outcome_lem _ = refl

  -- How many ends of runs the log has for an agent.
  abbrev pub outcomes : String → List (Emission V) → ℕ
  outcomes id [] = 0
  outcomes id (e ∷ rest) =
      if str_eq e.agent_id id && ends_run e.kind then 1 + outcomes id rest else outcomes id rest

  outcomes-append :
      (id : String) (es fs : List (Emission V))
      → outcomes id (es ++ fs) ≡ outcomes id es + outcomes id fs
  outcomes-append id [] fs = omega arith
  outcomes-append id (e ∷ rest) fs = ground (arith, outcomes-append id rest fs)

  has_outcome_none :
      (id : String) (log : List (Emission V)) → has_outcome id log ≡ false → outcomes id log ≡ 0
  unfolding has_outcome
  has_outcome_none id [] h = refl
  has_outcome_none id (e ∷ rest) h = ground (arith, is_outcome_lem e.kind, has_outcome_none id rest)

  has_outcome_some :
      (id : String) (log : List (Emission V)) → has_outcome id log ≡ true → 1 ≤ outcomes id log
  unfolding has_outcome
  has_outcome_some id [] h = absurd (ground (arith, h))
  has_outcome_some id (e ∷ rest) h = ground (arith, is_outcome_lem e.kind, has_outcome_some id rest)

  -- No agent has more than one end on record.
  pub record IsRecorded (w : Watch V) (id : String) : Type 0 where
    pub once : outcomes id w.log ≤ 1

  emit_change-IsRecorded :
      (readable stores : String → Bool) (w : Watch V) (c : FleetChange) (id : String)
      → ((k : String) → readable k ≡ true)
      → IsRecorded w id
      → IsRecorded (emit_change readable stores w c) id
  unfolding emit_change already_recorded_terminal record_change contains
  emit_change-IsRecorded readable stores w (discovered k workspace a) id r h = h
  emit_change-IsRecorded readable stores w (gone k workspace) id r h = h
  emit_change-IsRecorded readable stores w (workspace_health workspace state) id r h = h
  emit_change-IsRecorded readable stores w (status_changed k workspace from to) id r h = ground (
    arith,
    outcomes-append id w.log
        (record { repo = workspace; agent_id = k; kind = EventKind.status_changed from to } ∷ []),
    r k,
    eq_iff k id,
    is_terminal_lem to,
    has_outcome_none k w.log,
    has_outcome_some k w.log,
  )

  -- The log only grows.
  emit_change-outcomes :
      (readable stores : String → Bool) (w : Watch V) (c : FleetChange) (id : String)
      → outcomes id w.log ≤ outcomes id (emit_change readable stores w c).log
  unfolding emit_change already_recorded_terminal record_change
  emit_change-outcomes readable stores w (discovered k workspace a) id = omega arith
  emit_change-outcomes readable stores w (gone k workspace) id = omega arith
  emit_change-outcomes readable stores w (workspace_health workspace state) id = omega arith
  emit_change-outcomes readable stores w (status_changed k workspace from to) id = ground (
    arith,
    outcomes-append id w.log
        (record { repo = workspace; agent_id = k; kind = EventKind.status_changed from to } ∷ []),
  )

  emit_changes-outcomes :
      (readable stores : String → Bool) (w : Watch V) (cs : List FleetChange) (id : String)
      → outcomes id w.log ≤ outcomes id (emit_changes readable stores w cs).log
  unfolding emit_changes
  emit_changes-outcomes readable stores w [] id = omega arith
  emit_changes-outcomes readable stores w (c ∷ rest) id = omega (
    arith,
    emit_change-outcomes readable stores w c id,
    emit_changes-outcomes readable stores (emit_change readable stores w c) rest id,
  )

  emit_changes-IsRecorded :
      (readable stores : String → Bool) (w : Watch V) (cs : List FleetChange) (id : String)
      → ((k : String) → readable k ≡ true)
      → IsRecorded w id
      → IsRecorded (emit_changes readable stores w cs) id
  unfolding emit_changes
  emit_changes-IsRecorded readable stores w [] id r h = h
  emit_changes-IsRecorded readable stores w (c ∷ rest) id r h =
      emit_changes-IsRecorded readable stores (emit_change readable stores w c) rest id r
        (emit_change-IsRecorded readable stores w c id r h)

  -- Marks are dropped without touching the record.
  forget_gone-IsRecorded :
      (w : Watch V) (cs : List FleetChange) (id : String)
      → IsRecorded w id
      → IsRecorded (forget_gone w cs) id
  unfolding forget_gone forget_terminal
  forget_gone-IsRecorded w [] id h = h
  forget_gone-IsRecorded w (discovered k workspace a ∷ rest) id h =
      forget_gone-IsRecorded w rest id h
  forget_gone-IsRecorded w (status_changed k workspace from to ∷ rest) id h =
      forget_gone-IsRecorded w rest id h
  forget_gone-IsRecorded w (workspace_health workspace state ∷ rest) id h =
      forget_gone-IsRecorded w rest id h
  forget_gone-IsRecorded w (gone k workspace ∷ rest) id h =
      forget_gone-IsRecorded (forget_terminal k w) rest id (ground arith)

  forget_all-IsRecorded :
      (w : Watch V) (names : List String) (id : String)
      → IsRecorded w id
      → IsRecorded (forget_all w names) id
  unfolding forget_all forget_terminal
  forget_all-IsRecorded w [] id h = h
  forget_all-IsRecorded w (name ∷ rest) id h =
      forget_all-IsRecorded (forget_terminal name w) rest id (ground arith)

  forget_gone-log : (w : Watch V) (cs : List FleetChange) → (forget_gone w cs).log ≡ w.log
  unfolding forget_gone forget_terminal
  forget_gone-log w [] = refl
  forget_gone-log w (discovered k workspace a ∷ rest) = forget_gone-log w rest
  forget_gone-log w (status_changed k workspace from to ∷ rest) = forget_gone-log w rest
  forget_gone-log w (gone k workspace ∷ rest) = forget_gone-log (forget_terminal k w) rest
  forget_gone-log w (workspace_health workspace state ∷ rest) = forget_gone-log w rest

  forget_all-log : (w : Watch V) (names : List String) → (forget_all w names).log ≡ w.log
  unfolding forget_all forget_terminal
  forget_all-log w [] = refl
  forget_all-log w (name ∷ rest) = forget_all-log (forget_terminal name w) rest

  -- The record afterwards, and what it keeps.
  abbrev Kept : String → Watch V → Watch V → Type 0
  Kept id w w' = IsRecorded w' id × (outcomes id w.log ≤ outcomes id w'.log)

  emitted-Kept :
      (observes : Bool) (readable stores : String → Bool) (w w' : Watch V) (cs : List FleetChange)
      (id : String)
      → ((k : String) → readable k ≡ true)
      → Kept id w w'
      → Kept id w (if observes then emit_changes readable stores w' cs else w')
  emitted-Kept false readable stores w w' cs id r h = h
  emitted-Kept true readable stores w w' cs id r (h, le) = (
    emit_changes-IsRecorded readable stores w' cs id r h,
    omega (arith, le, emit_changes-outcomes readable stores w' cs id),
  )

  -- The marks that a pass drops at its end leave the log as it is.
  closed-log :
      (w : Watch V) (cs : List FleetChange) (names : List String)
      → (forget_all (forget_gone w cs) names).log ≡ w.log
  closed-log w cs names = forget_all-log _ names ∙ forget_gone-log w cs

  closed-Kept :
      (w w' : Watch V) (cs : List FleetChange) (names : List String) (id : String)
      → Kept id w w'
      → Kept id w (forget_all (forget_gone w' cs) names)
  closed-Kept w w' cs names id (h, le) = (
    (forget_all-IsRecorded _ names id (forget_gone-IsRecorded w' cs id h)),
    rw (closed-log w' cs names) le,
  )

  restarted-IsRecorded :
      (w : Watch V) (id : String) → outcomes id w.log ≤ 1 → Kept id w (restarted w)
  unfolding restarted contains
  restarted-IsRecorded w id h = (record { once = h }, omega arith)

-- What a process goes through.
pub data Happening : Type 0 where
  passing : Pass → Happening
  crashing : Happening

-- Every history can be read.
abbrev pub AllReadable : List Happening → Type 0
AllReadable [] = Unit
AllReadable (passing p ∷ rest) = ((id : String) → p.readable id ≡ true) × AllReadable rest
AllReadable (crashing ∷ rest) = AllReadable rest

module _ {V : Type 0} (debug : String → String) where
  abbrev pub live : Watch V → List Happening → Watch V
  live w [] = w
  live w (passing p ∷ rest) = live (pass debug w p).0 rest
  live w (crashing ∷ rest) = live (restarted w) rest

  pass_listed-IsRecorded :
      (w : Watch V) (p : Pass) (listed : Result (List CalibanTask)) (id : String)
      → ((k : String) → p.readable k ≡ true)
      → IsRecorded w id
      → Kept id w (pass_listed debug w p listed).0
  unfolding pass_listed pass_over
  pass_listed-IsRecorded w p (err e) id r h = (h, omega arith)
  pass_listed-IsRecorded w p (ok tasks) id r h = closed-Kept w _ _ _ id (
      emitted-Kept p.observes p.readable p.stores w _ _ id r
        (record { once = h.once }, omega arith))

  pass-IsRecorded :
      (w : Watch V) (p : Pass) (id : String)
      → ((k : String) → p.readable k ≡ true)
      → IsRecorded w id
      → Kept id w (pass debug w p).0
  unfolding pass
  pass-IsRecorded w p id r h = pass_listed-IsRecorded w p p.listed id r h

  live-IsRecorded :
      (w : Watch V) (hs : List Happening) (id : String)
      → AllReadable hs
      → IsRecorded w id
      → Kept id w (live w hs)
  live-IsRecorded w [] id r h = (h, omega arith)
  live-IsRecorded w (passing p ∷ rest) id r h =
      let (h', le) = pass-IsRecorded w p id r.0 h in
      let (h'', le') = live-IsRecorded (pass debug w p).0 rest id r.1 h' in
      (h'', omega (arith, le, le'))
  live-IsRecorded w (crashing ∷ rest) id r h =
      let (h', le) = restarted-IsRecorded w id h.once in
      let (h'', le') = live-IsRecorded (restarted w) rest id r h' in (h'', omega (arith, le, le'))

  -- However a process polls and crashes, with the observer's lease or without, and whatever the tasks
  -- and their pods say and whichever appends fail: as long as the histories can be read, an agent's name never gets a second end of
  -- run on record; and an end that is there stays.
  pub live_once :
      (w : Watch V) (hs : List Happening) (id : String)
      → AllReadable hs
      → outcomes id w.log ≤ 1
      → let log = (live (restarted w) hs).log in
        (outcomes id w.log ≤ outcomes id log) × (outcomes id log ≤ 1)
  live_once w hs id r h =
      let (h', le) = restarted-IsRecorded w id h in
      let (h'', le') = live-IsRecorded (restarted w) hs id r h' in
      (omega (arith, le, le'), h''.once)
