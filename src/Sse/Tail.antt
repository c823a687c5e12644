-- ===== src/Sse/Tail.antt =====
-- crates/api/src/sse/tail.rs, and `agent_stream` of crates/api/src/sse.rs: an agent's history, then
-- its live events. The trait `HistorySource` is the function `history`, which may answer another
-- list at each call. Sequence numbers are u64 in the source and do not reach 2^64 here.
pub mod Order
pub mod Heal
use prospero.Prelude.{
  ℕ, suc, ◌+◌, ◌-◌, Bool, true, false, Option, none, some, List, [], ◌∷◌, ◌++◌, map, String, str_eq,
  leb, ltb, ◌&&◌, if◌then◌else◌,
}
use prospero.Model.Event.{FleetEvent, is_finished}
use prospero.Bus.{BusEvent}

-- A unit that the stream forwards to the client.
pub data Frame (V : Type 0) : Type 0 where
  event : FleetEvent V → Frame V
  gap : (skipped last_seq : ℕ) → Frame V

-- What is done with one message of the bus.
pub data Step (V : Type 0) : Type 0 where
  emit : List (Frame V) → Step V
  emit_and_close : List (Frame V) → Step V
  skip : Step V
  close : Step V

-- The events of an agent from a number on, as the store answers them.
abbrev pub History : Type 0 → Type 0
History V = String → ℕ → List (FleetEvent V)

-- What the subscription yields, item by item, with what the store answers at that moment.
abbrev pub Schedule : Type 0 → Type 0
Schedule V = List (History V × Option (BusEvent V))

pub record Tailer : Type 0 where
  pub agent_id : String
  pub last_delivered : ℕ

module _ {V : Type 0} where
  -- The loop of the self-heal over the replayed events: the new high-water mark, whether the last
  -- forwarded event was terminal, and the frames.
  unfoldable pub heal : ℕ → List (FleetEvent V) → ℕ × Bool × List (Frame V)
  unfolding is_finished
  heal last [] = (last, false, [])
  heal last (ev ∷ rest) =
      let skipped = heal last rest in
      let healed = heal ev.seq rest in
      if leb ev.seq last
      then skipped
      else if is_finished ev
      then (ev.seq, true, Frame.event ev ∷ [])
      else (healed.0, healed.1, Frame.event ev ∷ healed.2)

  closing : Bool → List (Frame V) → Step V
  closing terminal frames = if terminal then emit_and_close frames else emit frames

  -- `Tailer::on_recv`.
  unfoldable pub on_recv : History V → Tailer → Option (BusEvent V) → Tailer × Step V
  unfolding heal closing is_finished
  on_recv history t (some (BusEvent.event ev)) =
      if str_eq ev.agent_id t.agent_id && ltb t.last_delivered ev.seq
      then (record t { last_delivered = ev.seq }, closing (is_finished ev) (Frame.event ev ∷ []))
      else (t, skip)
  on_recv history t (some (BusEvent.lagged skipped)) =
      let (last, terminal, frames) =
        heal t.last_delivered (history t.agent_id (t.last_delivered + 1)) in
      (record t { last_delivered = last }, closing terminal (gap skipped t.last_delivered ∷ frames))
  on_recv history t none = (t, close)

  -- The first part of `agent_stream`: the stored history, up to a terminal event.
  unfoldable pub replay_history : ℕ → List (FleetEvent V) → ℕ × Bool × List (Frame V)
  unfolding is_finished
  replay_history last [] = (last, false, [])
  replay_history last (ev ∷ rest) =
      let (last', terminal, frames) = replay_history ev.seq rest in
      if is_finished ev
      then (ev.seq, true, Frame.event ev ∷ [])
      else (last', terminal, Frame.event ev ∷ frames)

  frames_of : Step V → List (Frame V)
  frames_of (emit frames) = frames
  frames_of (emit_and_close frames) = frames
  frames_of skip = []
  frames_of close = []

  -- Whether the loop goes on.
  stays_open : Step V → Bool
  stays_open (emit frames) = true
  stays_open skip = true
  stays_open _ = false

  -- The second part of `agent_stream`: the loop over what the subscription yields, each item with
  -- what the store answers at that moment.
  unfoldable pub tail : Tailer → Schedule V → List (Frame V)
  unfolding frames_of stays_open
  tail t [] = []
  tail t ((history, item) ∷ rest) =
      let (t', step) = on_recv history t item in
      frames_of step ++ (let more = tail t' rest in if stays_open step then more else [])

  -- `agent_stream`, from the client's floor.
  unfoldable pub agent_stream : String → ℕ → List (FleetEvent V) → Schedule V → List (Frame V)
  agent_stream id from history items =
      let (last, terminal, frames) = replay_history (from - 1) history in
      frames
      ++ (let live = tail (record { agent_id = id; last_delivered = last }) items in
          if terminal then [] else live)
