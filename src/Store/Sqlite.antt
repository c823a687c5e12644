-- ===== src/Store/Sqlite.antt =====
-- crates/core/src/sqlite_store.rs: the SQL statements as functions on the table `events`, whose rows
-- stand in the order of their ordinals. The columns of a row are those of its event, with the kind
-- as the value that its JSON stands for; the database itself does not fail here.
pub mod Cursor
use prospero.Prelude.{
  ℕ, ◌+◌, Bool, true, false, not, List, [], ◌∷◌, ◌++◌, map, String, str_eq, ltb, leb, ◌==◌, ◌&&◌,
  max, any, take, filter, length, ◌-◌, if◌then◌else◌,
}
use prospero.Error.{Result, ok, err, seq_conflict}
use prospero.Model.Event.{FleetEvent, stream_key}
use prospero.Store.Query.{CursoredEvent, sort_by_seq, on_stream, max_seq, str_lt, kept}

-- `last_ordinal` is the largest ordinal that AUTOINCREMENT has given out, which it never gives again.
pub record SqliteStore (V : Type 0) : Type 0 where
  pub rows : List (CursoredEvent V)
  pub last_ordinal : ℕ

module _ {V : Type 0} where
  abbrev pub events : List (CursoredEvent V) → List (FleetEvent V)
  events [] = []
  events (r ∷ rest) = r.event ∷ events rest

  -- UNIQUE(stream_key, seq)
  unfoldable pub taken : FleetEvent V → List (FleetEvent V) → Bool
  taken e [] = false
  taken e (x ∷ rest) = if on_stream (stream_key e) x && x.seq == e.seq then true else taken e rest

  unfoldable pub append : SqliteStore V → FleetEvent V → SqliteStore V × Result (Unit {0})
  append s e =
      let ordinal = s.last_ordinal + 1 in
      if taken e (events s.rows) then (s, err seq_conflict) else (
        record s {
          rows = s.rows ++ (record { cursor = ordinal; event = e } ∷ []);
          last_ordinal = ordinal;
        },
        ok tt,
      )

  unfoldable pub replay : SqliteStore V → String → ℕ → List (FleetEvent V)
  replay s key from_seq =
      sort_by_seq
        (filter (λ (e : FleetEvent V). on_stream key e && leb from_seq e.seq) (events s.rows))

  unfoldable pub replay_fleet : SqliteStore V → ℕ → ℕ → List (CursoredEvent V)
  replay_fleet s after_cursor limit =
      take limit (filter (λ (r : CursoredEvent V). ltb after_cursor r.cursor) s.rows)

  abbrev pub max_cursor : List (CursoredEvent V) → ℕ
  max_cursor [] = 0
  max_cursor (r ∷ rest) = max r.cursor (max_cursor rest)

  unfoldable pub latest_fleet_cursor : SqliteStore V → ℕ
  latest_fleet_cursor s = max_cursor s.rows

  unfoldable pub high_water : SqliteStore V → String → ℕ
  high_water s key = max_seq (filter (on_stream key) (events s.rows))

  abbrev pub young : String → CursoredEvent V → Bool
  young before_ts r = not (str_lt r.event.ts before_ts)

  unfoldable pub prune : SqliteStore V → String → SqliteStore V × ℕ
  prune s before_ts = (
    record s { rows = filter (young before_ts) s.rows },
    length s.rows - length (filter (young before_ts) s.rows),
  )
