-- ===== src/K8s/Control/Restart.antt =====
-- What a restart comes to.
use prospero.Prelude.{
  ◌≡◌, refl, Bool, Option, none, some, List, [], ◌∷◌, String, ◌⊎◌, inl, inr, get,
}
use prospero.Error.{CoreError, Result, ok, err, fleet}
use prospero.K8s.{CalibanTask}
use prospero.K8s.Task.{new_metadata}
use prospero.K8s.Plane.{Plane}
use prospero.K8s.Plane.Slots.{stop_frees}
use prospero.K8s.Control.{
  Write, applied, deleted, fresh_task, reapplied, restarted_from, restart_agent,
}

-- The old task was still listed in each read before one that found nothing.
abbrev pub SeenGone : List (Result (Option CalibanTask)) → Type 0
SeenGone [] = ⊥
SeenGone (err e ∷ reads) = ⊥
SeenGone (ok none ∷ reads) = Unit
SeenGone (ok (some t) ∷ reads) = SeenGone reads

-- The fresh task was written once the old one was seen gone, or it was not written, with an error.
abbrev pub Outcome :
    String
    → CalibanTask
    → List (Result (Option CalibanTask))
    → (apply : Result (Unit {0})) → List Write × Result String
    → Type 0
Outcome name old reads apply (writes, result) =
    (SeenGone reads
      × (writes
          ≡ applied (record {
            metadata = record { name = some name; uid = none; creation_timestamp = none };
            spec = old.spec;
            status = none;
          })
            ∷ [])
      × ((apply ≡ ok tt) × (result ≡ ok name)
          ⊎ ((e : CoreError) × (apply ≡ err e) × (result ≡ err e))))
    ⊎ ((writes ≡ []) × ((e : CoreError) × (result ≡ err e)))

reapplied-Outcome :
    (name : String) (old : CalibanTask) (reads : List (Result (Option CalibanTask)))
    (apply : Result (Unit {0}))
    → Outcome name old reads apply (reapplied name old reads apply)
unfolding reapplied fresh_task new_metadata
reapplied-Outcome name old [] apply = inr (refl, (fleet name, refl))
reapplied-Outcome name old (err e ∷ reads) apply = inr (refl, (e, refl))
reapplied-Outcome name old (ok (some t) ∷ reads) apply = reapplied-Outcome name old reads apply
reapplied-Outcome name old (ok none ∷ reads) (err e) = inl (tt, refl, inr (e, refl, refl))
reapplied-Outcome name old (ok none ∷ reads) (ok done) = inl (tt, refl, inl (refl, refl))

-- A restart of an agent that is there, if its deletion is accepted, tears its attach task's slot down,
-- deletes its task, and then either writes one of the same name and spec with no status, only after a read that found the old one
-- gone, or writes nothing more and fails. It succeeds exactly if that write does.
pub restart_agent-Outcome :
    (p : Plane) (in_time : Bool) (name : String) (old : CalibanTask)
    (reads : List (Result (Option CalibanTask))) (apply : Result (Unit {0}))
    → let (p', writes, result) = restart_agent p in_time name (ok (some old)) (ok tt) reads apply in
      (get name p'.attached ≡ none)
      × ((later : List Write) × (writes ≡ deleted name ∷ later)
          × Outcome name old reads apply (later, result))
unfolding restart_agent restarted_from
restart_agent-Outcome p in_time name old reads apply = (
  stop_frees p name in_time,
  ((reapplied name old reads apply).0, refl, reapplied-Outcome name old reads apply),
)
