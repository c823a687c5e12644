-- ===== src/Sse/Tail/Heal.antt =====
-- What reaches a client of one agent's stream, and what does not.
use prospero.Prelude.{
  ℕ, ◌+◌, ◌<◌, ◌≤◌, ◌≡◌, refl, subst, Bool, true, false, some, List, [], ◌∷◌, map, arith,
  if◌then◌else◌, eq_iff, ◌⊎◌, inl, inr,
}
use prospero.Model.Event.{FleetEvent, is_finished}
use prospero.Bus.{BusEvent}
use prospero.Sse.Tail.{
  Frame, gap, emit, emit_and_close, Tailer, History, Schedule, heal, on_recv, frames_of, tail,
  stays_open,
}
use prospero.Sse.Tail.Order.{Ascending, Ascending-tail, Ascending-if}

module _ {V : Type 0} where
  -- The list up to its first terminal event, that event included.
  abbrev pub up_to_finish : List (FleetEvent V) → List (FleetEvent V)
  up_to_finish [] = []
  up_to_finish (ev ∷ rest) = if is_finished ev then ev ∷ [] else ev ∷ up_to_finish rest

  abbrev pub has_finish : List (FleetEvent V) → Bool
  has_finish [] = false
  has_finish (ev ∷ rest) = if is_finished ev then true else has_finish rest

  heal_all :
      (n : ℕ) (evs : List (FleetEvent V))
      → Ascending n (map Frame.event evs)
      → ((heal n evs).2 ≡ map Frame.event (up_to_finish evs)) × ((heal n evs).1 ≡ has_finish evs)
  unfolding heal
  heal_all n [] h = (refl, refl)
  heal_all n (ev ∷ rest) h = ground (arith, heal_all ev.seq rest h.1)

  -- When the bus dropped events for this client, the client is told how many were dropped and
  -- after which number, and then receives every event that the store holds above that number, in
  -- order, up to the first that ends the run; the stream closes exactly if there is one. The
  -- store's answer is in the order of its numbers, all above the last one delivered.
  pub lagged_complete :
      (history : History V) (t : Tailer) (skipped : ℕ)
      → Ascending t.last_delivered (map Frame.event (history t.agent_id (t.last_delivered + 1)))
      → (on_recv history t (some (BusEvent.lagged skipped))).1 ≡ (
          let stored = history t.agent_id (t.last_delivered + 1) in
          let frames = gap skipped t.last_delivered ∷ map Frame.event (up_to_finish stored) in
          if has_finish stored then emit_and_close frames else emit frames)
  unfolding on_recv
  lagged_complete history t skipped h =
      ground (arith, heal_all t.last_delivered (history t.agent_id (t.last_delivered + 1)) h)

  -- The frame is that event.
  abbrev pub Carries : FleetEvent V → Frame V → Type 0
  Carries b (Frame.event ev) = ev.seq ≡ b.seq
  Carries b (gap skipped last_seq) = ⊥

  abbrev pub Reaches : FleetEvent V → List (Frame V) → Type 0
  Reaches b [] = ⊥
  Reaches b (f ∷ rest) = Carries b f ⊎ Reaches b rest

  below-not-Reaches :
      (b : FleetEvent V) (n : ℕ) (fs : List (Frame V)) → b.seq ≤ n → Ascending n fs → ¬ Reaches b fs
  below-not-Reaches b n [] h a r = r
  below-not-Reaches b n (Frame.event ev ∷ rest) h a (inl e) = omega arith
  below-not-Reaches b n (Frame.event ev ∷ rest) h a (inr r) =
      below-not-Reaches b ev.seq rest (omega arith) a.1 r
  below-not-Reaches b n (gap skipped last_seq ∷ rest) h a (inl e) = e
  below-not-Reaches b n (gap skipped last_seq ∷ rest) h a (inr r) = below-not-Reaches b n rest h a r

  on_recv-event :
      (history : History V) (t : Tailer) (a : FleetEvent V)
      → a.agent_id ≡ t.agent_id
      → t.last_delivered < a.seq
      → ((on_recv history t (some (BusEvent.event a))).0.last_delivered ≡ a.seq)
        × (frames_of (on_recv history t (some (BusEvent.event a))).1 ≡ Frame.event a ∷ [])
  unfolding on_recv frames_of
  on_recv-event history t a e h = ground (arith, eq_iff a.agent_id t.agent_id)

  behind-not-Reaches :
      (t : Tailer) (a b : FleetEvent V) (history : History V) (items : Schedule V)
      → a.agent_id ≡ t.agent_id
      → t.last_delivered < a.seq
      → b.seq < a.seq
      → ¬ Reaches b (tail t ((history, some (BusEvent.event a)) ∷ items))
  unfolding tail
  behind-not-Reaches t a b history items e h k =
      let (t', step) = on_recv history t (some (BusEvent.event a)) in
      let (reached, shown) = on_recv-event history t a e h in
      let later : Ascending a.seq (if stays_open step then tail t' items else []) =
        Ascending-if (stays_open step) a.seq (tail t' items) []
          (subst (λ n. Ascending n (tail t' items)) reached (Ascending-tail t' items)) tt in
      rw shown (λ r. elim r [
        | inl same ↦ omega arith
        | inr rest ↦ below-not-Reaches b a.seq _ (omega arith) later rest
      ])

  -- An event of the agent that the bus yields behind one with a higher number, which is what
  -- two concurrent emissions can do, never reaches the client: no frame of the stream, from the
  -- overtaking event on, has its number, whatever the bus and the store yield later.
  pub overtaken-lost :
      (t : Tailer) (a b : FleetEvent V) (history : History V)
      → (items : Schedule V) → a.agent_id ≡ t.agent_id
      → t.last_delivered < b.seq
      → b.seq < a.seq
      → ¬ Reaches b
          (tail t ((history, some (BusEvent.event a)) ∷ (history, some (BusEvent.event b)) ∷ items))
  overtaken-lost t a b history items e h k =
      behind-not-Reaches t a b history ((history, some (BusEvent.event b)) ∷ items) e (omega arith)
        k
