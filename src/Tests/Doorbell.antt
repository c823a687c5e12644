-- ===== src/Tests/Doorbell.antt =====
-- The doorbell of several replicas.
use prospero.Prelude.{◌≡◌, refl, true, List, [], ◌∷◌, map, take, arith}
use prospero.Error.{ok, err, seq_conflict}
use prospero.Model.Event.{FleetEvent, stream_key, stream_key_for}
use prospero.Bus.{BusEvent}
use prospero.Bus.Doorbell.{subscribe}
use prospero.Bus.Doorbell.Exact.{Ring, notice_of, farthest, subscribe_exact}
use prospero.Store.Query.{replay, sort_by_seq, insert_by_seq}
use prospero.Tests.Data.{ev, last_ev}

abbrev stream : List (FleetEvent (Unit {0}))
stream = ev 1 ∷ ev 2 ∷ last_ev 3 ∷ []

-- The first read fails, the second sees two events that were written in the other order.
abbrev rings : List (Ring (Unit {0}))
rings =
    record { event = ev 1; log = err seq_conflict }
    ∷ record { event = ev 2; log = ok (ev 2 ∷ ev 1 ∷ []) }
    ∷ record { event = last_ev 3; log = ok (ev 2 ∷ ev 1 ∷ last_ev 3 ∷ []) }
    ∷ []

subscribe_exact_example :
    subscribe true "a" (map notice_of rings)
    ≡ map BusEvent.event (take (farthest "a" 0 rings) stream)
unfolding replay sort_by_seq insert_by_seq stream_key stream_key_for
subscribe_exact_example =
    subscribe_exact "a" stream rings (omega arith, (omega arith, (omega arith, tt)))
      (tt, (refl, (refl, tt)))
