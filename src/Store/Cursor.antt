-- ===== src/Store/Cursor.antt =====
-- The fleet-wide cursor: reading the log in batches, and what a rewrite of the log does to it.
use prospero.Prelude.{
  ℕ, zero, suc, ◌+◌, ◌-◌, ◌≤◌, ◌≡◌, refl, ap, List, [], ◌∷◌, ◌++◌, arith, ltb, filter, take, drop,
  length, drop-append, drop_all,
}
use prospero.Model.Event.{FleetEvent}
use prospero.Store.Query.{CursoredEvent, enumerate, replay_fleet, latest_fleet_cursor}

module _ {V : Type 0} where
  all_after :
      (c i : ℕ) (evs : List (FleetEvent V))
      → c ≤ i
      → filter (λ (x : CursoredEvent V). ltb c x.cursor) (enumerate i evs) ≡ enumerate i evs
  unfolding enumerate
  all_after c i [] h = refl
  all_after c i (e ∷ rest) h = ground (arith, all_after c (i + 1) rest)

  after_filter :
      (c i k : ℕ) (evs : List (FleetEvent V))
      → c ≡ i + k
      → filter (λ (x : CursoredEvent V). ltb c x.cursor) (enumerate i evs)
        ≡ enumerate c (drop k evs)
  unfolding enumerate
  after_filter c i zero evs e =
      rw (all_after c i evs (omega arith)) (ap (λ n. enumerate n evs) (omega arith))
  after_filter c i (suc k) [] e = refl
  after_filter c i (suc k) (x ∷ rest) e = ground (arith, after_filter c (i + 1) k rest)

  take-enumerate :
      (n i : ℕ) (evs : List (FleetEvent V)) → take n (enumerate i evs) ≡ enumerate i (take n evs)
  unfolding enumerate
  take-enumerate zero i evs = refl
  take-enumerate (suc n) i [] = refl
  take-enumerate (suc n) i (x ∷ rest) = cc (take-enumerate n (i + 1) rest)

  -- A read after a cursor returns the next events of the log, `limit` of them if there are as many,
  -- numbered on from the cursor.
  pub replay_fleet_lem :
      (c limit : ℕ) (evs : List (FleetEvent V))
      → replay_fleet c limit evs ≡ enumerate c (take limit (drop c evs))
  unfolding replay_fleet
  replay_fleet_lem c limit evs =
      rw (after_filter c 0 c evs (omega arith)) (take-enumerate limit c (drop c evs))

  pub length-enumerate : (i : ℕ) (evs : List (FleetEvent V)) → length (enumerate i evs) ≡ length evs
  unfolding enumerate
  length-enumerate i [] = refl
  length-enumerate i (x ∷ rest) = omega (arith, length-enumerate (i + 1) rest)

  pub enumerate-append :
      (i : ℕ) (xs ys : List (FleetEvent V))
      → enumerate i (xs ++ ys) ≡ enumerate i xs ++ enumerate (i + length xs) ys
  unfolding enumerate
  enumerate-append i [] ys = ap (λ n. enumerate n ys) (omega arith)
  enumerate-append i (x ∷ xs) ys =
      let e : i + suc (length xs) ≡ (i + 1) + length xs = omega arith in
      rw e (cc (enumerate-append (i + 1) xs ys))

  -- A reader that has read the whole log and keeps its cursor over a rewrite of the log, which
  -- leaves `rest` of it, misses the events written after the rewrite, as many as the rewrite removed.
  pub cursor_after_rewrite :
      (limit : ℕ) (log rest new : List (FleetEvent V))
      → length rest ≤ length log
      → replay_fleet (latest_fleet_cursor log) limit (rest ++ new)
        ≡ enumerate (length log) (take limit (drop (length log - length rest) new))
  unfolding latest_fleet_cursor
  cursor_after_rewrite limit log rest new h =
      rw (replay_fleet_lem, drop-append, drop_all (length log) rest h) refl
