-- ===== src/Sse/Fleet.antt =====
-- `fleet_stream` of crates/api/src/sse.rs: every stream's events, drained from the store in batches at
-- each doorbell.
use mathlib.Core.List.{append-nil, append_assoc}
use mathlib.Core.Option
use native.Mathlib.Nat.{add-zero}
use prospero.Prelude.{
  ℕ, zero, suc, ◌+◌, ◌-◌, ◌<◌, ◌≡◌, refl, ap, ◌∙◌, sym, Bool, true, false, Option, none, some, List,
  [], ◌∷◌, ◌++◌, arith, take, drop, length, take_add, take-append-drop_taken, drop-drop,
  drop-append, take-append_taken, if◌then◌else◌, length-append, length-drop,
}
use prospero.Model.Event.{FleetEvent}
use prospero.Store.Query.{CursoredEvent, enumerate, replay_fleet}
use prospero.Store.Cursor.{replay_fleet_lem, length-enumerate, enumerate-append}

abbrev pub fleet_batch : ℕ
fleet_batch = 256

module _ {V : Type 0} where
  is_empty : List (CursoredEvent V) → Bool
  is_empty [] = true
  is_empty (c ∷ rest) = false

  -- The cursor behind a batch.
  unfoldable pub advance : ℕ → List (CursoredEvent V) → ℕ
  advance cursor [] = cursor
  advance cursor (c ∷ rest) = advance c.cursor rest

  -- The inner loop over a log that stands still: batches until one is empty. `none` means that the
  -- fuel ran out.
  unfoldable pub drain : ℕ → ℕ → List (FleetEvent V) → Option (ℕ × List (CursoredEvent V))
  unfolding advance is_empty
  drain zero cursor log = none
  drain (suc fuel) cursor log =
      let batch = replay_fleet cursor fleet_batch log in
      let rest = drain fuel (advance cursor batch) log in
      if is_empty batch then some (cursor, []) else Option.map (λ r. (r.0, batch ++ r.1)) rest

  -- The reads of the whole stream, one after another, each with the log as it stands then.
  unfoldable pub fleet_stream : ℕ → List (List (FleetEvent V)) → List (CursoredEvent V)
  unfolding advance
  fleet_stream cursor [] = []
  fleet_stream cursor (log ∷ later) =
      let batch = replay_fleet cursor fleet_batch log in
      batch ++ fleet_stream (advance cursor batch) later

  advance-enumerate :
      (c : ℕ) (evs : List (FleetEvent V)) → advance c (enumerate c evs) ≡ c + length evs
  unfolding advance enumerate
  advance-enumerate c [] = omega arith
  advance-enumerate c (x ∷ rest) = omega (arith, advance-enumerate (c + 1) rest)

  drain_from :
      (fuel c : ℕ) (log left : List (FleetEvent V))
      → drop c log ≡ left
      → length left < fuel
      → drain fuel c log ≡ some (c + length left, enumerate c left)
  unfolding drain enumerate
  drain_from zero c log left e h = absurd (omega arith)
  drain_from (suc fuel) c log [] e h = rw (replay_fleet_lem, e, add-zero) refl
  drain_from (suc fuel) c log (x ∷ xs) e h =
      let sent = x ∷ take 255 xs in
      let rest = drop (length sent) (x ∷ xs) in
      let behind : drop (c + length sent) log ≡ rest =
        sym (drop-drop c (length sent) log) ∙ ap (drop (length sent)) e in
      let ih =
        drain_from fuel (c + length sent) log rest behind
          (omega (arith, length-drop (length sent) (x ∷ xs))) in
      let count : c + length sent + length rest ≡ c + length (x ∷ xs) = omega (
        arith,
        length-drop (length sent) (x ∷ xs),
        ap length (take-append-drop_taken 256 (x ∷ xs)),
        length-append sent rest,
      ) in
      let all : enumerate c sent ++ enumerate (c + length sent) rest ≡ enumerate c (x ∷ xs) =
        sym (enumerate-append c sent rest)
        ∙ ap (enumerate c) (take-append-drop_taken 256 (x ∷ xs)) in
      rw (replay_fleet_lem, e, advance-enumerate, ih) (cc (count, all))

  -- With fuel for one read for each event that is left, and one more, the inner loop ends, at the
  -- end of the log, and has sent every event after the cursor, once and in the order of the log,
  -- each with its own place in the log as its cursor.
  drain_all :
      (fuel c : ℕ) (log : List (FleetEvent V))
      → length log - c < fuel
      → drain fuel c log ≡ some (c + length (drop c log), enumerate c (drop c log))
  drain_all fuel c log h =
      drain_from fuel c log (drop c log) refl (omega (arith, length-drop c log))

  -- The log only grows.
  abbrev pub Growing : List (FleetEvent V) → List (List (FleetEvent V)) → Type 0
  Growing log [] = Unit
  Growing log (l ∷ later) = ((new : List (FleetEvent V)) × (l ≡ log ++ new)) × Growing l later

  abbrev pub final : List (FleetEvent V) → List (List (FleetEvent V)) → List (FleetEvent V)
  final log [] = log
  final log (l ∷ later) = final l later

  final-grows :
      (log : List (FleetEvent V)) (later : List (List (FleetEvent V)))
      → Growing log later
      → (extra : List (FleetEvent V)) × (final log later ≡ log ++ extra)
  final-grows log [] g = ([], sym (append-nil log))
  final-grows log (l ∷ later) ((new, e), g) =
      let (extra, e') = final-grows l later g in
      (new ++ extra, e' ∙ ap (λ xs. xs ++ extra) e ∙ append_assoc log new extra)

  -- However the reads fall between the writes of a growing log, the client receives the events after
  -- its cursor in the order of the log, without a gap and without a duplicate.
  pub fleet_stream_exact :
      (c : ℕ) (log : List (FleetEvent V)) (later : List (List (FleetEvent V)))
      → Growing log later
      → fleet_stream c later
        ≡ enumerate c (take (length (fleet_stream c later)) (drop c (final log later)))
  unfolding fleet_stream enumerate
  fleet_stream_exact c log [] g = refl
  fleet_stream_exact c log (l ∷ later) g =
      let batch = take fleet_batch (drop c l) in
      let grown = final-grows l later g.1 in
      let more = fleet_stream (c + length batch) later in
      let now : take (length batch) (drop c (final l later)) ≡ batch =
        rw (grown.1, drop-append)
          (take-append_taken fleet_batch (drop c l) (drop (c - length l) grown.0)) in
      let ih = fleet_stream_exact (c + length batch) l later g.1 in
      rw
        (
          replay_fleet_lem, advance-enumerate, length-append, length-enumerate, take_add, now,
          drop-drop, enumerate-append,
        )
        (ap (◌++◌ (enumerate c batch)) ih)
