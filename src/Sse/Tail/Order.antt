-- ===== src/Sse/Tail/Order.antt =====
-- The order of what a client of one agent's stream receives.
use prospero.Prelude.{
  ℕ, ◌+◌, ◌-◌, ◌<◌, ◌≡◌, refl, Bool, true, false, Option, none, some, List, [], ◌∷◌, ◌++◌, map,
  String, if◌then◌else◌, arith,
}
use prospero.Model.Event.{FleetEvent}
use prospero.Bus.{BusEvent}
use prospero.Sse.Tail.{
  Frame, gap, Tailer, History, Schedule, heal, on_recv, replay_history, frames_of, stays_open, tail,
  agent_stream,
}

module _ {V : Type 0} where
  -- The events among the frames have ascending numbers above `n`. A gap has no number.
  abbrev pub Ascending : ℕ → List (Frame V) → Type 0
  Ascending n [] = Unit
  Ascending n (Frame.event ev ∷ rest) = (n < ev.seq) × Ascending ev.seq rest
  Ascending n (gap skipped last_seq ∷ rest) = Ascending n rest

  -- The number of the last event, or `n`.
  abbrev pub mark : ℕ → List (Frame V) → ℕ
  mark n [] = n
  mark n (Frame.event ev ∷ rest) = mark ev.seq rest
  mark n (gap skipped last_seq ∷ rest) = mark n rest

  Ascending-append :
      (n : ℕ) (xs ys : List (Frame V))
      → Ascending n xs
      → Ascending (mark n xs) ys
      → Ascending n (xs ++ ys)
  Ascending-append n [] ys a b = b
  Ascending-append n (Frame.event ev ∷ rest) ys a b = (a.0, Ascending-append ev.seq rest ys a.1 b)
  Ascending-append n (gap skipped last_seq ∷ rest) ys a b = Ascending-append n rest ys a b

  heal-Ascending :
      (n : ℕ) (evs : List (FleetEvent V))
      → Ascending n (heal n evs).2 × (mark n (heal n evs).2 ≡ (heal n evs).0)
  unfolding heal
  heal-Ascending n [] = (tt, refl)
  heal-Ascending n (ev ∷ rest) = ground (arith, heal-Ascending n rest, heal-Ascending ev.seq rest)

  -- One message of the bus.
  on_recv-Ascending :
      (history : History V) (t : Tailer) (item : Option (BusEvent V))
      → Ascending t.last_delivered (frames_of (on_recv history t item).1)
        × (mark t.last_delivered (frames_of (on_recv history t item).1)
            ≡ (on_recv history t item).0.last_delivered)
  unfolding on_recv frames_of
  on_recv-Ascending history t none = (tt, refl)
  on_recv-Ascending history t (some (BusEvent.event ev)) = ground arith
  on_recv-Ascending history t (some (BusEvent.lagged skipped)) =
      ground (arith, heal-Ascending t.last_delivered (history t.agent_id (t.last_delivered + 1)))

  pub Ascending-if :
      (b : Bool) (n : ℕ) (xs ys : List (Frame V))
      → Ascending n xs
      → Ascending n ys
      → Ascending n (if b then xs else ys)
  Ascending-if true n xs ys h k = h
  Ascending-if false n xs ys h k = k

  pub Ascending-tail : (t : Tailer) (items : Schedule V) → Ascending t.last_delivered (tail t items)
  unfolding tail
  Ascending-tail t [] = tt
  Ascending-tail t ((history, item) ∷ rest) =
      let step = (on_recv history t item).1 in
      let t' = (on_recv history t item).0 in
      Ascending-append t.last_delivered (frames_of step) _ (on_recv-Ascending history t item).0 (
        Ascending-if (stays_open step) _ (tail t' rest) []
          (rw (on_recv-Ascending history t item).1 (Ascending-tail t' rest)) tt)

  replay_history-Ascending :
      (n : ℕ) (evs : List (FleetEvent V))
      → Ascending n (map Frame.event evs)
      → Ascending n (replay_history n evs).2
        × (mark n (replay_history n evs).2 ≡ (replay_history n evs).0)
  unfolding replay_history
  replay_history-Ascending n [] h = (tt, refl)
  replay_history-Ascending n (ev ∷ rest) h =
      ground (arith, replay_history-Ascending ev.seq rest h.1)

  -- If the stored history that `agent_stream` reads first is in the order of its numbers, from the
  -- client's floor on and without a 0, then the numbers of all the events that the client receives
  -- ascend strictly from that floor, so none comes twice or out of order: whatever the bus
  -- yields, and whatever the store answers at each self-heal.
  pub agent_stream-Ascending :
      (id : String) (from : ℕ) (history : List (FleetEvent V))
      → (items : Schedule V) → Ascending (from - 1) (map Frame.event history)
      → Ascending (from - 1) (agent_stream id from history items)
  unfolding agent_stream
  agent_stream-Ascending id from history items h =
      Ascending-append (from - 1) (replay_history (from - 1) history).2 _
        (replay_history-Ascending (from - 1) history h).0
        (Ascending-if (replay_history (from - 1) history).1 _ [] _ tt
          (rw (replay_history-Ascending (from - 1) history h).1 (Ascending-tail _ items)))
