-- ===== src/Store/Query.antt =====
-- crates/core/src/store.rs: what the store answers about the events it holds, in the order in which
-- they were written. Timestamps are compared as texts; Rust's order on texts is that of the code
-- points.
use text.Mathlib.Text.{is_lt}
use Prim.Native.String.{compare}
use prospero.Prelude.{
  ℕ, ◌+◌, Bool, not, List, [], ◌∷◌, String, str_eq, leb, ltb, max, ◌&&◌, length, take, filter,
  if◌then◌else◌,
}
use prospero.Model.Event.{FleetEvent, stream_key}

abbrev pub str_lt : String → String → Bool
str_lt a b = is_lt (compare a b)

pub record CursoredEvent (V : Type 0) : Type 0 where
  pub cursor : ℕ
  pub event : FleetEvent V

module _ {V : Type 0} where
  -- `sort_by_key(|e| e.seq)`, which is stable.
  unfoldable pub insert_by_seq : FleetEvent V → List (FleetEvent V) → List (FleetEvent V)
  insert_by_seq e [] = e ∷ []
  insert_by_seq e (x ∷ xs) = if leb e.seq x.seq then e ∷ x ∷ xs else x ∷ insert_by_seq e xs

  unfoldable pub sort_by_seq : List (FleetEvent V) → List (FleetEvent V)
  sort_by_seq [] = []
  sort_by_seq (x ∷ xs) = insert_by_seq x (sort_by_seq xs)

  abbrev pub on_stream : String → FleetEvent V → Bool
  on_stream key e = str_eq (stream_key e) key

  unfoldable pub replay : String → ℕ → List (FleetEvent V) → List (FleetEvent V)
  replay key from_seq events =
      sort_by_seq (filter (λ (e : FleetEvent V). on_stream key e && leb from_seq e.seq) events)

  -- `enumerate` and the 1-based cursor; `i` is the index of the first event.
  unfoldable pub enumerate : ℕ → List (FleetEvent V) → List (CursoredEvent V)
  enumerate i [] = []
  enumerate i (e ∷ rest) = record { cursor = i + 1; event = e } ∷ enumerate (i + 1) rest

  unfoldable pub replay_fleet : ℕ → ℕ → List (FleetEvent V) → List (CursoredEvent V)
  replay_fleet after_cursor limit events =
      take limit (filter (λ (c : CursoredEvent V). ltb after_cursor c.cursor) (enumerate 0 events))

  unfoldable pub latest_fleet_cursor : List (FleetEvent V) → ℕ
  latest_fleet_cursor events = length events

  -- `max().unwrap_or(0)`
  abbrev pub max_seq : List (FleetEvent V) → ℕ
  max_seq [] = 0
  max_seq (e ∷ rest) = max e.seq (max_seq rest)

  unfoldable pub high_water : String → List (FleetEvent V) → ℕ
  high_water key events = max_seq (filter (on_stream key) events)

  -- What `prune` keeps.
  unfoldable pub kept : String → List (FleetEvent V) → List (FleetEvent V)
  kept before_ts events = filter (λ (e : FleetEvent V). not (str_lt e.ts before_ts)) events
