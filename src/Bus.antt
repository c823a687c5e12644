-- ===== src/Bus.antt =====
-- crates/core/src/bus.rs: what a live subscription yields.
pub mod Doorbell
use prospero.Prelude.{ℕ, List, [], ◌∷◌, String, str_eq, if◌then◌else◌}
use prospero.Model.Event.{FleetEvent, stream_key}

pub data BusEvent (V : Type 0) : Type 0 where
  event : FleetEvent V → BusEvent V
  lagged : (skipped : ℕ) → BusEvent V

-- What a receiver of the broadcast channel gets: an event, or a count of those dropped.
pub data Received (V : Type 0) : Type 0 where
  received : FleetEvent V → Received V
  overrun : (skipped : ℕ) → Received V

module _ {V : Type 0} where
  -- `InProcessBus::subscribe`: the stream until the channel closes.
  unfoldable pub subscribe : String → List (Received V) → List (BusEvent V)
  unfolding stream_key
  subscribe key [] = []
  subscribe key (received ev ∷ rest) =
      if str_eq (stream_key ev) key then event ev ∷ subscribe key rest else subscribe key rest
  subscribe key (overrun skipped ∷ rest) = lagged skipped ∷ subscribe key rest

  -- `InProcessBus::subscribe_all`.
  unfoldable pub subscribe_all : List (Received V) → List (BusEvent V)
  subscribe_all [] = []
  subscribe_all (received ev ∷ rest) = event ev ∷ subscribe_all rest
  subscribe_all (overrun skipped ∷ rest) = lagged skipped ∷ subscribe_all rest
