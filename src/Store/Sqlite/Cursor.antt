-- ===== src/Store/Sqlite/Cursor.antt =====
-- The cursors of the sqlite store: they ascend, and neither a prune nor an append moves one.
use prospero.Prelude.{
  ℕ, ◌+◌, ◌≤◌, ◌<◌, ◌≡◌, refl, Bool, List, [], ◌∷◌, ◌++◌, String, ltb, arith, filter, filter-append,
  if◌then◌else◌, inl, inr, Bool-cases,
}
use prospero.Model.Event.{FleetEvent}
use prospero.Store.Query.{CursoredEvent}
use prospero.Store.Sqlite.{
  SqliteStore, append, prune, latest_fleet_cursor, max_cursor, young, taken, events,
}

module _ {V : Type 0} where
  -- The cursors ascend from above `n` up to `m`.
  abbrev pub Between : ℕ → ℕ → List (CursoredEvent V) → Type 0
  Between n m [] = n ≤ m
  Between n m (r ∷ rest) = (n < r.cursor) × Between r.cursor m rest

  abbrev pub IsOrdered : SqliteStore V → Type 0
  IsOrdered s = Between 0 s.last_ordinal s.rows

  Between-append :
      (n m : ℕ) (rows : List (CursoredEvent V)) (e : FleetEvent V)
      → Between n m rows
      → Between n (m + 1) (rows ++ (record { cursor = m + 1; event = e } ∷ []))
  Between-append n m [] e h = (omega arith, omega arith)
  Between-append n m (r ∷ rest) e h = (h.0, Between-append r.cursor m rest e h.1)

  Between-mono :
      (n k m : ℕ) (rows : List (CursoredEvent V)) → n ≤ k → Between k m rows → Between n m rows
  Between-mono n k m [] h b = omega arith
  Between-mono n k m (r ∷ rest) h b = (omega arith, b.1)

  Between-filter :
      (p : CursoredEvent V → Bool) (n m : ℕ) (rows : List (CursoredEvent V))
      → Between n m rows
      → Between n m (filter p rows)
  Between-filter p n m [] b = b
  Between-filter p n m (r ∷ rest) b =
      ground
        (arith, Between-filter p r.cursor m rest b.1, Between-mono n r.cursor m (filter p rest))

  append-IsOrdered : (s : SqliteStore V) (e : FleetEvent V) → IsOrdered s → IsOrdered (append s e).0
  unfolding append
  append-IsOrdered s e h = elim (Bool-cases (taken e (events s.rows))) [
    | inl old ↦ rw old h
    | inr new ↦ rw new (Between-append 0 s.last_ordinal s.rows e h)
  ]

  prune-IsOrdered : (s : SqliteStore V) (ts : String) → IsOrdered s → IsOrdered (prune s ts).0
  unfolding prune
  prune-IsOrdered s ts h = Between-filter (young ts) 0 s.last_ordinal s.rows h

  max_cursor-le : (n m : ℕ) (rows : List (CursoredEvent V)) → Between n m rows → max_cursor rows ≤ m
  max_cursor-le n m [] b = omega arith
  max_cursor-le n m (r ∷ rest) b =
      omega (arith, max_cursor-le r.cursor m rest b.1, cursor-le r.cursor m rest b.1)
    where
      cursor-le : (k l : ℕ) (rs : List (CursoredEvent V)) → Between k l rs → k ≤ l
      cursor-le k l [] h = h
      cursor-le k l (x ∷ xs) h = omega (arith, cursor-le x.cursor l xs h.1)

  above_all :
      (c : ℕ) (rows : List (CursoredEvent V))
      → max_cursor rows ≤ c
      → filter (λ (r : CursoredEvent V). ltb c r.cursor) rows ≡ []
  above_all c [] h = refl
  above_all c (r ∷ rest) h = ground (arith, above_all c rest)

  filter_swap :
      (p q : CursoredEvent V → Bool) (rows : List (CursoredEvent V))
      → filter p (filter q rows) ≡ filter q (filter p rows)
  filter_swap p q [] = refl
  filter_swap p q (r ∷ rest) = ground (arith, filter_swap p q rest)

  -- What a reader at the cursor `c` has still to read.
  abbrev pub unread : ℕ → SqliteStore V → List (CursoredEvent V)
  unread c s = filter (λ (r : CursoredEvent V). ltb c r.cursor) s.rows

  -- The cursors of the table ascend strictly, after any append and any prune.
  writes-IsOrdered :
      (s : SqliteStore V) (e : FleetEvent V) (ts : String)
      → IsOrdered s
      → IsOrdered (append s e).0 × IsOrdered (prune s ts).0
  writes-IsOrdered s e ts h = (append-IsOrdered s e h, prune-IsOrdered s ts h)

  -- A write does not move what a reader at any cursor that was given out has still to read: an
  -- append adds its event behind it, or is refused and adds nothing, and a prune takes the old
  -- events out of it; and at the latest cursor nothing is left to read.
  pub unread_stable :
      (s : SqliteStore V) (c : ℕ) (e : FleetEvent V) (ts : String)
      → IsOrdered s
      → c ≤ s.last_ordinal
      → (unread c (append s e).0 ≡ (
          if taken e (events s.rows)
          then unread c s
          else unread c s ++ (record { cursor = s.last_ordinal + 1; event = e } ∷ [])))
        × (unread c (prune s ts).0 ≡ filter (young ts) (unread c s))
        × (unread (latest_fleet_cursor s) s ≡ [])
  unfolding append prune latest_fleet_cursor
  unread_stable s c e ts h le = (
    elim (Bool-cases (taken e (events s.rows))) [
      | inl old ↦ rw old
      | inr new ↦ rw (new, filter-append) (ground arith)
    ],
    filter_swap _ _ s.rows,
    above_all (max_cursor s.rows) s.rows (omega arith),
  )
