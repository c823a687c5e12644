-- ===== src/Bus/Doorbell.antt =====
-- crates/core/src/distributed_bus.rs: the bus of several replicas. A notification names a stream and a
-- number; a subscriber that hears it reads the rest of the stream from the store. What the listener
-- receives until it fails is an argument, and with each notification the store's answers to `replay` then.
pub mod Exact
use Prim.Native.Char.{Char, code}
use Prim.Native.String.{◌++◌ as str_append}
use prospero.Prelude.{
  ℕ, zero, suc, ◌+◌, ◌/◌, ◌%◌, ◌==◌, Bool, Option, none, some, List, [], ◌∷◌, ◌++◌, String, str_eq,
  ltb, leb, not, if◌then◌else◌, get, insert,
}
use prospero.Error.{CoreError, Result, ok, err}
use prospero.Model.Event.{FleetEvent, stream_key}
use prospero.Bus.{BusEvent, event}

-- The text of a digit.
unfoldable pub digit : ℕ → String
digit zero = "0"
digit (suc zero) = "1"
digit (suc (suc zero)) = "2"
digit (suc (suc (suc zero))) = "3"
digit (suc (suc (suc (suc zero)))) = "4"
digit (suc (suc (suc (suc (suc zero))))) = "5"
digit (suc (suc (suc (suc (suc (suc zero)))))) = "6"
digit (suc (suc (suc (suc (suc (suc (suc zero))))))) = "7"
digit (suc (suc (suc (suc (suc (suc (suc (suc zero)))))))) = "8"
digit _ = "9"

-- The decimal digits of a number below `10 ^ fuel`.
unfoldable pub decimals : ℕ → ℕ → String
decimals zero n = ""
decimals (suc fuel) n =
    let rest = decimals fuel (n / 10) in
    if ltb n 10 then digit n else str_append rest (digit (n % 10))

-- A u64 has at most 20 digits.
unfoldable pub show_u64 : ℕ → String
show_u64 n = decimals 20 n

-- The notification of an event.
unfoldable pub payload_of : {V : Type 0} → FleetEvent V → String
payload_of e = str_append (stream_key e) (str_append ":" (show_u64 e.seq))

unfoldable pub last_cut : Char → String → Option (String × String) → Option (String × String)
last_cut c s (some (before, after)) = some (String.◌∷◌ c before, after)
last_cut c s none = if code c == 58 then some ("", s) else none

-- `rsplit_once(':')`.
unfoldable pub rsplit_colon : String → Option (String × String)
rsplit_colon String.[] = none
rsplit_colon (String.◌∷◌ c s) = last_cut c s (rsplit_colon s)

-- What a listener receives: the payload, and what the store answers at that moment.
pub record Notice (V : Type 0) : Type 0 where
  pub payload : String
  pub replay : String → ℕ → Result (List (FleetEvent V))

-- `copied().unwrap_or(0)`
abbrev seen : Option ℕ → ℕ
seen none = 0
seen (some n) = n

module _ {V : Type 0} where
  -- The loop over the replayed events.
  unfoldable pub forward : ℕ → List (FleetEvent V) → ℕ × List (BusEvent V)
  forward last_seq [] = (last_seq, [])
  forward last_seq (ev ∷ rest) =
      let (last_seq', out) = forward ev.seq rest in
      let skipped = forward last_seq rest in
      if leb ev.seq last_seq then skipped else (last_seq', event ev ∷ out)

  -- An answer of the store; a failed one leaves the rest to the next notification.
  unfoldable pub answered : ℕ → Result (List (FleetEvent V)) → ℕ × List (BusEvent V)
  answered last_seq (err e) = (last_seq, [])
  answered last_seq (ok events) = forward last_seq events

  unfoldable pub heard : String → ℕ → Notice V → Option (String × String) → ℕ × List (BusEvent V)
  heard key last_seq notif none = (last_seq, [])
  heard key last_seq notif (some (nkey, seq)) =
      if not (str_eq nkey key)
      then (last_seq, [])
      else answered last_seq (notif.replay key (last_seq + 1))

  unfoldable pub listen : String → ℕ → List (Notice V) → List (BusEvent V)
  listen key last_seq [] = []
  listen key last_seq (notif ∷ rest) =
      let (last_seq', out) = heard key last_seq notif (rsplit_colon notif.payload) in
      out ++ listen key last_seq' rest

  -- `DistributedBus::subscribe`; without a listener there is nothing.
  unfoldable pub subscribe : (listening : Bool) → String → List (Notice V) → List (BusEvent V)
  subscribe listening key notices = if listening then listen key 0 notices else []

  -- The same for every stream at once, with a mark for each.
  unfoldable pub forward_all :
      String → List (String × ℕ) → List (FleetEvent V) → List (String × ℕ) × List (BusEvent V)
  forward_all nkey marks [] = (marks, [])
  forward_all nkey marks (ev ∷ rest) =
      let cur = seen (get nkey marks) in
      let skipped = forward_all nkey (insert nkey cur marks) rest in
      let (marks', out) = forward_all nkey (insert nkey ev.seq marks) rest in
      if leb ev.seq cur then skipped else (marks', event ev ∷ out)

  unfoldable pub answered_all :
      String
      → List (String × ℕ)
      → Result (List (FleetEvent V))
      → List (String × ℕ) × List (BusEvent V)
  answered_all nkey marks (err e) = (marks, [])
  answered_all nkey marks (ok events) = forward_all nkey marks events

  unfoldable pub heard_any :
      List (String × ℕ)
      → Notice V
      → Option (String × String)
      → List (String × ℕ) × List (BusEvent V)
  heard_any marks notif none = (marks, [])
  heard_any marks notif (some (nkey, seq)) =
      answered_all nkey marks (notif.replay nkey (seen (get nkey marks) + 1))

  -- `DistributedBus::drain_doorbell`.
  unfoldable pub drain_doorbell : List (String × ℕ) → List (Notice V) → List (BusEvent V)
  drain_doorbell marks [] = []
  drain_doorbell marks (notif ∷ rest) =
      let (marks', out) = heard_any marks notif (rsplit_colon notif.payload) in
      out ++ drain_doorbell marks' rest

  -- `DistributedBus::subscribe_all`, and with an error in place of nothing `subscribe_all_ready`.
  unfoldable pub subscribe_all : (listening : Bool) → List (Notice V) → List (BusEvent V)
  subscribe_all listening notices = if listening then drain_doorbell [] notices else []
