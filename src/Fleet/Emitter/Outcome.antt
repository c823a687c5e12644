-- ===== src/Fleet/Emitter/Outcome.antt =====
-- What one `emit` does, on every path and over any store.
use mathlib.Core.List.{append_assoc}
use prospero.Prelude.{
  ℕ, zero, suc, ◌+◌, ◌≤◌, ◌<◌, ◌≡◌, refl, ap, ◌∙◌, Option, none, some, [], ◌∷◌, ◌++◌, String, arith,
  ◌⊎◌, inl, inr, Option-cases, Bool-cases,
}
use prospero.Error.{CoreError, Result, ok, err}
use prospero.Model.Event.{FleetEvent, EventKind, store_persist_failed, stream_key, stream_key_for}
use prospero.Fleet.Emitter.{
  StoreApi, Ambient, Emitter, next_seq, reseed_seq, next_event, append_with_seq_retry,
  emit_persist_gap, emit, may_retry, failure, seq_conflict_retries, record_append, publish,
  mark_gap,
}

module _ {V : Type 0} (api : StoreApi V) (describe : CoreError → String) where
  open api use {Store}

  -- The store accepted the event in its last call, if no error is reported.
  abbrev pub Accepted : Option CoreError → FleetEvent V → Store → Type 0
  Accepted none e after = (before : Store) × (api.append before e ≡ (ok tt, after))
  Accepted (some x) e after = Unit

  -- The loop changes the store and the number of the event, and nothing else.
  pub record Tried (em : Emitter Store V) (e : FleetEvent V)
      (r : Emitter Store V × FleetEvent V × Option CoreError) : Type 0 where
    pub published : r.0.published ≡ em.published
    pub appended : r.0.events_appended ≡ em.events_appended
    pub failures : r.0.append_failures ≡ em.append_failures
    pub renumbered : r.1 ≡ record e { seq = r.1.seq }
    pub accepted : Accepted r.2 r.1 r.0.store

  last_call :
      (before : Store) (e : FleetEvent V) (result : Result (Unit {0})) (after : Store)
      → api.append before e ≡ (result, after)
      → Accepted (failure api describe result) e after
  unfolding failure
  last_call before e (ok done) after h = (before, h)
  last_call before e (err x) after h = tt

  once :
      (em : Emitter Store V) (e : FleetEvent V)
      → let (result, store') = api.append em.store e in
        Tried em e (record em { store = store' }, e, failure api describe result)
  once em e = record {
    published = refl;
    appended = refl;
    failures = refl;
    renumbered = refl;
    accepted = last_call em.store e (api.append em.store e).0 (api.append em.store e).1 refl;
  }

  next_seq-quiet :
      (em : Emitter Store V) (key : String)
      → let em' = (next_seq api describe em key).0 in
        (em'.published ≡ em.published)
        × (em'.events_appended ≡ em.events_appended)
        × (em'.append_failures ≡ em.append_failures)
  unfolding next_seq
  next_seq-quiet em key = ground arith

  retry_step :
      (em : Emitter Store V) (store' : Store) (e : FleetEvent V) (key : String)
      (r : Emitter Store V × FleetEvent V × Option CoreError)
      → let (fresh, seq) =
          next_seq api describe (reseed_seq api describe (record em { store = store' }) key) key in
        Tried fresh (record e { seq = seq }) r → Tried em e r
  unfolding reseed_seq
  retry_step em store' e key r t =
      let quiet = next_seq-quiet (reseed_seq api describe (record em { store = store' }) key) key in
      record {
        published = t.published ∙ quiet.0;
        appended = t.appended ∙ quiet.1;
        failures = t.failures ∙ quiet.2;
        renumbered = t.renumbered;
        accepted = t.accepted;
      }

  pub retry-Tried :
      (n : ℕ) (em : Emitter Store V) (e : FleetEvent V)
      → Tried em e (append_with_seq_retry api describe n em e)
  unfolding append_with_seq_retry
  retry-Tried zero em e = once em e
  retry-Tried (suc n) em e = elim (Bool-cases (may_retry api describe (api.append em.store e).0)) [
    | inl again ↦
        rw again (retry_step em (api.append em.store e).1 e (stream_key e) _ (retry-Tried n _ _))
    | inr last ↦ rw last (once em e)
  ]

  -- The event that an emission makes: all but its number is given.
  abbrev pub Made : Ambient → String → String → EventKind V → FleetEvent V → Type 0
  Made env repo agent_id kind e = e ≡ record {
    seq = e.seq;
    ts = env.now;
    repo = repo;
    agent_id = agent_id;
    kind = kind;
    actor = env.actor;
    on_behalf_of = env.subject;
  }

  pub next_event-Made :
      (em : Emitter Store V) (env : Ambient) (repo agent_id : String) (kind : EventKind V)
      → let (em', e) = next_event api describe em env repo agent_id kind in
        Made env repo agent_id kind e
        × (em'.published ≡ em.published)
        × (em'.events_appended ≡ em.events_appended)
        × (em'.append_failures ≡ em.append_failures)
  unfolding next_event
  next_event-Made em env repo agent_id kind =
      let quiet = next_seq-quiet em (stream_key_for repo agent_id) in
      (refl, quiet.0, quiet.1, quiet.2)

  -- A sequencing and an append, as `emit` and its marker make them.
  pub sent-Made :
      (em : Emitter Store V) (env : Ambient) (repo agent_id : String) (kind : EventKind V)
      → let (em', e) = next_event api describe em env repo agent_id kind in
        let (em'', e', failed) = append_with_seq_retry api describe seq_conflict_retries em' e in
        Made env repo agent_id kind e'
        × (em''.published ≡ em.published)
        × (em''.events_appended ≡ em.events_appended)
        × (em''.append_failures ≡ em.append_failures)
        × Accepted failed e' em''.store
  sent-Made em env repo agent_id kind =
      let (made, p, a, f) = next_event-Made em env repo agent_id kind in
      let next = next_event api describe em env repo agent_id kind in
      let t = retry-Tried seq_conflict_retries next.0 next.1 in
      (
        t.renumbered
            ∙ ap
                (λ (x : FleetEvent V). record x {
                  seq =
                      (append_with_seq_retry api describe seq_conflict_retries next.0 next.1).1.seq;
                })
                made,
        t.published ∙ p,
        t.appended ∙ a,
        t.failures ∙ f,
        t.accepted,
      )

  -- How one emission may end.
  abbrev pub Emitted :
      Emitter Store V → Ambient → String → String → EventKind V → Emitter Store V → Type 0
  Emitted em env repo agent_id kind em' =
      ((e : FleetEvent V) × Made env repo agent_id kind e
        × (em'.published ≡ em.published ++ (e ∷ []))
        × (em'.events_appended ≡ em.events_appended + 1)
        × (em'.append_failures ≡ em.append_failures)
        × Accepted none e em'.store)
      ⊎ ((e m : FleetEvent V) × (x : CoreError) × Made env repo agent_id kind e
          × Made env repo agent_id (store_persist_failed e.seq (describe x)) m
          × (em'.published ≡ em.published ++ (e ∷ m ∷ []))
          × (em'.events_appended + em'.append_failures
              ≡ em.events_appended + em.append_failures + 2)
          × (em.append_failures < em'.append_failures))

  gap-Made :
      (em : Emitter Store V) (env : Ambient) (repo agent_id : String) (lost : ℕ) (x : CoreError)
      → let em' = emit_persist_gap api describe em env repo agent_id lost x in
        (m : FleetEvent V) × Made env repo agent_id (store_persist_failed lost (describe x)) m
        × (em'.published ≡ em.published ++ (m ∷ []))
        × (em'.events_appended + em'.append_failures ≡ em.events_appended + em.append_failures + 1)
        × (em.append_failures ≤ em'.append_failures)
  unfolding emit_persist_gap
  gap-Made em env repo agent_id lost x =
      let kind = store_persist_failed lost (describe x) in
      let (em', e) = next_event api describe em env repo agent_id kind in
      let (em'', e', failed) = append_with_seq_retry api describe seq_conflict_retries em' e in
      let (made, p, a, f, accepted) = sent-Made em env repo agent_id kind in
      elim (Option-cases failed) [
        | inl fine ↦ rw fine (e', made, ap (λ xs. xs ++ (e' ∷ [])) p, omega arith, omega arith)
        | inr (y, lost_too) ↦
            rw lost_too (e', made, ap (λ xs. xs ++ (e' ∷ [])) p, omega arith, omega arith)
      ]

  ending :
      (em em'' : Emitter Store V) (env : Ambient) (repo agent_id : String) (kind : EventKind V)
      (e : FleetEvent V)
      → (failed : Option CoreError) → Made env repo agent_id kind e
      → em''.published ≡ em.published
      → em''.events_appended ≡ em.events_appended
      → em''.append_failures ≡ em.append_failures
      → Accepted failed e em''.store
      → Emitted em env repo agent_id kind (
          mark_gap api describe
            (publish api describe e (record_append api describe failed em''))
            env
            repo
            agent_id
            e.seq
            failed)
  unfolding mark_gap publish record_append
  ending em em'' env repo agent_id kind e none made p a f accepted =
      inl (e, made, ap (λ xs. xs ++ (e ∷ [])) p, ap (λ n. n + 1) a, f, accepted)
  ending em em'' env repo agent_id kind e (some x) made p a f accepted =
      let sent = publish api describe e (record_append api describe (some x) em'') in
      let (m, marked, shown, counted, grown) = gap-Made sent env repo agent_id e.seq x in
      inr (
        e,
        m,
        x,
        made,
        marked,
        shown
            ∙ ap (λ xs. (xs ++ (e ∷ [])) ++ (m ∷ [])) p
            ∙ append_assoc em.published (e ∷ []) (m ∷ []),
        omega arith,
        omega arith,
      )

  -- One emission over any store, whatever other writers do to it between two calls. Either the
  -- store accepted the event in its last call, the event is the one thing published, and the
  -- emission counts as one append that succeeded. Or the event is published all the same, behind
  -- it a marker that names the number which the event was published with, and the counters
  -- together count two appends, at least one of them failed. The events published before stay,
  -- and those new are as given but for their numbers.
  pub emit-Emitted :
      (em : Emitter Store V) (env : Ambient) (repo agent_id : String) (kind : EventKind V)
      → Emitted em env repo agent_id kind (emit api describe em env repo agent_id kind)
  unfolding emit
  emit-Emitted em env repo agent_id kind =
      let next = next_event api describe em env repo agent_id kind in
      let tried = append_with_seq_retry api describe seq_conflict_retries next.0 next.1 in
      let (made, p, a, f, accepted) = sent-Made em env repo agent_id kind in
      ending em tried.0 env repo agent_id kind tried.1 tried.2 made p a f accepted
