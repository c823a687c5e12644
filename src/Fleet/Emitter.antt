-- ===== src/Fleet/Emitter.antt =====
-- `Emitter` of crates/core/src/fleet.rs, with the counters of crates/core/src/metrics.rs that it moves.
-- The durable store is a parameter, with a state of its own that each call may change: another
-- replica may write between two calls. The bus is the list of what was published, in order. What
-- the environment supplies to an event (the clock, the actor, the subject) is an argument.
pub mod Outcome
pub mod Recovery
pub mod Race
use prospero.Prelude.{
  ℕ, zero, suc, ◌+◌, Bool, true, false, Option, none, some, List, [], ◌∷◌, ◌++◌, String,
  if◌then◌else◌, get, insert, remove,
}
use prospero.Error.{CoreError, Result, ok, err, seq_conflict, unwrap_or}
use prospero.Model.Event.{FleetEvent, EventKind, store_persist_failed, stream_key, stream_key_for}

-- The two calls of the trait `Store` that the emitter makes.
pub record StoreApi (V : Type 0) : Type 1 where
  pub Store : Type 0
  pub append : Store → FleetEvent V → Result (Unit {0}) × Store
  pub high_water : Store → String → Result ℕ × Store

-- What the environment supplies to an event.
pub record Ambient : Type 0 where
  pub now : String
  pub actor : Option String
  pub subject : Option String

pub record Emitter (S V : Type 0) : Type 0 where
  pub store : S
  pub seqs : List (String × ℕ)
  pub published : List (FleetEvent V)
  pub events_appended : ℕ
  pub append_failures : ℕ

abbrev pub seq_conflict_retries : ℕ
seq_conflict_retries = 8

is_conflict : CoreError → Bool
is_conflict seq_conflict = true
is_conflict _ = false

-- `describe` renders an error.
module _ {V : Type 0} (api : StoreApi V) (describe : CoreError → String) where
  open api use {Store}

  -- A cached counter, or the durable high-water mark; an unreadable mark counts as 0.
  unfoldable pub next_seq : Emitter Store V → String → Emitter Store V × ℕ
  next_seq em key =
      let (mark, store') = api.high_water em.store key in
      let seeded = unwrap_or mark 0 + 1 in
      elim (get key em.seqs) [
        | some n ↦ (record em { seqs = insert key (n + 1) em.seqs }, n + 1)
        | none ↦ (record em { store = store'; seqs = insert key seeded em.seqs }, seeded)
      ]

  unfoldable pub reseed_seq : Emitter Store V → String → Emitter Store V
  reseed_seq em key = record em { seqs = remove key em.seqs }

  unfoldable pub next_event :
      Emitter Store V → Ambient → String → String → EventKind V → Emitter Store V × FleetEvent V
  next_event em env repo agent_id kind =
      let (em', seq) = next_seq em (stream_key_for repo agent_id) in
      (
        em',
        record {
          seq = seq;
          ts = env.now;
          repo = repo;
          agent_id = agent_id;
          kind = kind;
          actor = env.actor;
          on_behalf_of = env.subject;
        },
      )

  failure : Result (Unit {0}) → Option CoreError
  failure (ok done) = none
  failure (err e) = some e

  may_retry : Result (Unit {0}) → Bool
  unfolding is_conflict
  may_retry (ok done) = false
  may_retry (err e) = is_conflict e

  -- The loop, by the number of retries left.
  unfoldable pub append_with_seq_retry :
      ℕ → Emitter Store V → FleetEvent V → Emitter Store V × FleetEvent V × Option CoreError
  unfolding failure may_retry
  append_with_seq_retry zero em event =
      let (result, store') = api.append em.store event in
      (record em { store = store' }, event, failure result)
  append_with_seq_retry (suc retries) em event =
      let (result, store') = api.append em.store event in
      let tried = record em { store = store' } in
      let (fresh, seq) = next_seq (reseed_seq tried (stream_key event)) (stream_key event) in
      let again = append_with_seq_retry retries fresh (record event { seq = seq }) in
      if may_retry result then again else (tried, event, failure result)

  record_append : Option CoreError → Emitter Store V → Emitter Store V
  record_append none em = record em { events_appended = em.events_appended + 1 }
  record_append (some e) em = record em { append_failures = em.append_failures + 1 }

  publish : FleetEvent V → Emitter Store V → Emitter Store V
  publish event em = record em { published = em.published ++ (event ∷ []) }

  unfoldable pub emit_persist_gap :
      Emitter Store V → Ambient → String → String → ℕ → CoreError → Emitter Store V
  unfolding record_append publish
  emit_persist_gap em env repo agent_id lost_seq e =
      let (em', marker) =
        next_event em env repo agent_id (store_persist_failed lost_seq (describe e)) in
      let (em'', marker', failed) = append_with_seq_retry seq_conflict_retries em' marker in
      publish marker' (record_append failed em'')

  -- The end of `emit`: a lost event leaves a marker.
  mark_gap : Emitter Store V → Ambient → String → String → ℕ → Option CoreError → Emitter Store V
  mark_gap em env repo agent_id lost_seq none = em
  mark_gap em env repo agent_id lost_seq (some e) = emit_persist_gap em env repo agent_id lost_seq e

  unfoldable pub emit : Emitter Store V → Ambient → String → String → EventKind V → Emitter Store V
  unfolding record_append publish mark_gap
  emit em env repo agent_id kind =
      let (em', event) = next_event em env repo agent_id kind in
      let (em'', event', failed) = append_with_seq_retry seq_conflict_retries em' event in
      let sent = publish event' (record_append failed em'') in
      mark_gap sent env repo agent_id event'.seq failed
