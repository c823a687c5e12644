-- ===== src/Fleet/Emitter/Recovery.antt =====
-- The emitter over the sqlite store, with no other writer during the emission: a number that others
-- have taken costs one retry, and no event.
use prospero.Prelude.{
  ℕ, zero, suc, ◌+◌, ◌<◌, ◌≡◌, refl, ap, ◌∙◌, true, false, Option, none, some, List, [], ◌∷◌, ◌++◌,
  String, arith, inl, inr, Option-cases, Bool-cases, filter, subst, sym, get, insert, remove,
  get-insert, get-remove,
}
use prospero.Error.{CoreError, ok}
use prospero.Model.Event.{FleetEvent, EventKind, stream_key, stream_key_for}
use prospero.Store.Query.{on_stream, max_seq, CursoredEvent}
use prospero.Store.Sqlite.{SqliteStore, events, taken}
use prospero.Store.Sqlite
use prospero.Fleet.Emitter.{
  StoreApi, Ambient, Emitter, next_seq, reseed_seq, next_event, append_with_seq_retry, emit,
  may_retry, seq_conflict_retries, record_append, publish, mark_gap,
}
use prospero.Fleet.Emitter.Outcome.{Made, sent-Made}

module _ {V : Type 0} where
  abbrev pub sqlite_api : StoreApi V
  sqlite_api = record {
    Store = SqliteStore V;
    append = λ s e. ((Sqlite.append s e).1, (Sqlite.append s e).0);
    high_water = λ s key. (ok (Sqlite.high_water s key), s);
  }

  fresh_number :
      (e : FleetEvent V) (xs : List (FleetEvent V))
      → max_seq (filter (on_stream (stream_key e)) xs) < e.seq
      → taken e xs ≡ false
  unfolding taken
  fresh_number e [] h = refl
  fresh_number e (x ∷ xs) h = ground (arith, fresh_number e xs)

  events-append :
      (rows : List (CursoredEvent V)) (r : CursoredEvent V)
      → events (rows ++ (r ∷ [])) ≡ events rows ++ (r.event ∷ [])
  events-append [] r = refl
  events-append (x ∷ rest) r = ap (◌∷◌ x.event) (events-append rest r)

  -- A successful loop: the event is the new last row, under a number that no event of its stream had.
  record Persisted (before : SqliteStore V) (key : String)
      (r : Emitter (SqliteStore V) V × FleetEvent V × Option CoreError) : Type 0 where
    no_error : r.2 ≡ none
    stored : events r.0.store.rows ≡ events before.rows ++ (r.1 ∷ [])
    unused : taken r.1 (events before.rows) ≡ false
    cached : get key r.0.seqs ≡ some r.1.seq

  module _ (describe : CoreError → String) where
    at_once :
        (n : ℕ) (em : Emitter (SqliteStore V) V) (e : FleetEvent V) (key : String)
        → taken e (events em.store.rows) ≡ false
        → get key em.seqs ≡ some e.seq
        → Persisted em.store key (append_with_seq_retry sqlite_api describe n em e)
    unfolding append_with_seq_retry Sqlite.append
    at_once zero em e key new cached = rw new (record {
      no_error = refl;
      stored = events-append em.store.rows _;
      unused = new;
      cached = cached;
    })
    at_once (suc n) em e key new cached = rw new (record {
      no_error = refl;
      stored = events-append em.store.rows _;
      unused = new;
      cached = cached;
    })

    seeded :
        (em : Emitter (SqliteStore V) V) (key : String)
        → get key em.seqs ≡ none
        → next_seq sqlite_api describe em key ≡ (
          record em { seqs = insert key (Sqlite.high_water em.store key + 1) em.seqs },
          Sqlite.high_water em.store key + 1,
        )
    unfolding next_seq
    seeded em key h = rw (h, next_seq)

    above_mark :
        (s : SqliteStore V) (e : FleetEvent V) (key : String) (n : ℕ)
        → stream_key e ≡ key
        → e.seq ≡ Sqlite.high_water s key + 1
        → taken e (events s.rows) ≡ false
    unfolding Sqlite.high_water
    above_mark s e key n k h =
        fresh_number e (events s.rows) (
          subst (λ j. max_seq (filter (on_stream j) (events s.rows)) < e.seq) (sym k) (omega arith))

    reseeded :
        (em : Emitter (SqliteStore V) V) (key : String)
        → next_seq sqlite_api describe (reseed_seq sqlite_api describe em key) key ≡ (
          record em { seqs = insert key (Sqlite.high_water em.store key + 1) (remove key em.seqs) },
          Sqlite.high_water em.store key + 1,
        )
    unfolding reseed_seq
    reseeded em key = seeded _ key (get-remove key em.seqs)

    after_conflict :
        (n : ℕ) (em : Emitter (SqliteStore V) V) (e : FleetEvent V)
        → taken e (events em.store.rows) ≡ true
        → Persisted em.store (stream_key e) (append_with_seq_retry sqlite_api describe (suc n) em e)
    unfolding append_with_seq_retry Sqlite.append may_retry
    after_conflict n em e old =
        let key = stream_key e in
        let next = Sqlite.high_water em.store key + 1 in
        rw (old, reseeded em key)
          (at_once n (record em { seqs = insert key next (remove key em.seqs) })
            (record e { seq = next }) key
            (above_mark em.store (record e { seq = next }) key n (unfold stream_key in refl) refl)
            (get-insert key next (remove key em.seqs)))

    next_seq-cached :
        (em : Emitter (SqliteStore V) V) (key : String)
        → let (em', n) = next_seq sqlite_api describe em key in
          (get key em'.seqs ≡ some n) × (em'.store ≡ em.store)
    unfolding next_seq
    next_seq-cached em key = elim (Option-cases (get key em.seqs)) [
      | inl none_yet ↦ rw (none_yet, next_seq) (get-insert key _ em.seqs, refl)
      | inr (n, cached) ↦ rw (cached, next_seq) (get-insert key _ em.seqs, refl)
    ]

    retry-Persisted :
        (n : ℕ) (em : Emitter (SqliteStore V) V) (e : FleetEvent V)
        → get (stream_key e) em.seqs ≡ some e.seq
        → Persisted em.store (stream_key e) (append_with_seq_retry sqlite_api describe (suc n) em e)
    retry-Persisted n em e cached = elim (Bool-cases (taken e (events em.store.rows))) [
      | inl old ↦ after_conflict n em e old
      | inr new ↦ at_once (suc n) em e (stream_key e) new cached
    ]

    ends_well :
        (em : Emitter (SqliteStore V) V) (env : Ambient) (repo agent_id : String) (lost : ℕ)
        (e : FleetEvent V)
        → (failed : Option CoreError) → failed ≡ none
        → mark_gap sqlite_api describe
            (publish sqlite_api describe e (record_append sqlite_api describe failed em))
            env
            repo
            agent_id
            lost
            failed
          ≡ record em {
            published = em.published ++ (e ∷ []);
            events_appended = em.events_appended + 1;
          }
    unfolding mark_gap publish record_append
    ends_well em env repo agent_id lost e none h = refl
    ends_well em env repo agent_id lost e (some x) h = cc

    next_event-cached :
        (em : Emitter (SqliteStore V) V) (env : Ambient) (repo agent_id : String)
        (kind : EventKind V)
        → let (em', e) = next_event sqlite_api describe em env repo agent_id kind in
          (get (stream_key e) em'.seqs ≡ some e.seq)
          × (em'.store ≡ em.store)
          × (stream_key e ≡ stream_key_for repo agent_id)
    unfolding next_event stream_key
    next_event-cached em env repo agent_id kind =
        let (cached, same) = next_seq-cached em (stream_key_for repo agent_id) in
        (cached, same, refl)

    -- Whatever the emitter has cached, and so also if other replicas have taken the number that it
    -- tries first: the event is stored as the new last row of the table, under a number that no
    -- stored event of its stream has, and is the one thing published; no failure is counted; and
    -- the number is what the emitter counts on from.
    pub emit_persists :
        (em : Emitter (SqliteStore V) V) (env : Ambient) (repo agent_id : String)
        (kind : EventKind V)
        → let em' = emit sqlite_api describe em env repo agent_id kind in
          (e : FleetEvent V) × Made sqlite_api describe env repo agent_id kind e
          × (em'.published ≡ em.published ++ (e ∷ []))
          × (events em'.store.rows ≡ events em.store.rows ++ (e ∷ []))
          × (taken e (events em.store.rows) ≡ false)
          × (get (stream_key_for repo agent_id) em'.seqs ≡ some e.seq)
          × (em'.append_failures ≡ em.append_failures)
    unfolding emit
    emit_persists em env repo agent_id kind =
        let next = next_event sqlite_api describe em env repo agent_id kind in
        let tried = append_with_seq_retry sqlite_api describe seq_conflict_retries next.0 next.1 in
        let (made, p, a, f, accepted) = sent-Made sqlite_api describe em env repo agent_id kind in
        let (cached, same, key) = next_event-cached em env repo agent_id kind in
        let done = retry-Persisted 7 next.0 next.1 cached in
        rw (ends_well tried.0 env repo agent_id tried.1.seq tried.1 tried.2 done.no_error) (
          tried.1,
          made,
          ap (λ xs. xs ++ (tried.1 ∷ [])) p,
          done.stored ∙ ap (λ (s : SqliteStore V). events s.rows ++ (tried.1 ∷ [])) same,
          subst (λ (s : SqliteStore V). taken tried.1 (events s.rows) ≡ false) same done.unused,
          subst (λ k. get k tried.0.seqs ≡ some tried.1.seq) key done.cached,
          f,
        )
