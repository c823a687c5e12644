-- ===== src/Store/Order.antt =====
-- The replay of one stream.
use mathlib.Core.List.{Perm}
use mathlib.Core.List.Perm
use prospero.Prelude.{
  ℕ, ◌+◌, ◌≤◌, ◌<◌, ◌≡◌, refl, Bool, true, List, [], ◌∷◌, ◌++◌, String, arith, Bool-cases, inl, inr,
  leb, ◌&&◌, filter, if◌then◌else◌, max, All, filter-append,
}
use prospero.Model.Event.{FleetEvent}
use prospero.Store.Query.{insert_by_seq, sort_by_seq, on_stream, replay, high_water, max_seq}

module _ {V : Type 0} where
  -- The numbers do not fall, from `n` on.
  abbrev pub Sorted : ℕ → List (FleetEvent V) → Type 0
  Sorted n [] = Unit
  Sorted n (e ∷ rest) = (n ≤ e.seq) × Sorted e.seq rest

  Sorted-mono : (m n : ℕ) (xs : List (FleetEvent V)) → m ≤ n → Sorted n xs → Sorted m xs
  Sorted-mono m n [] h s = tt
  Sorted-mono m n (x ∷ xs) h s = (omega arith, s.1)

  insert_by_seq-Sorted :
      (n : ℕ) (e : FleetEvent V) (xs : List (FleetEvent V))
      → n ≤ e.seq
      → Sorted n xs
      → Sorted n (insert_by_seq e xs)
  unfolding insert_by_seq
  insert_by_seq-Sorted n e [] h s = (h, tt)
  insert_by_seq-Sorted n e (x ∷ xs) h s = ground (arith, insert_by_seq-Sorted x.seq e xs)

  sort_by_seq-Sorted :
      (n : ℕ) (xs : List (FleetEvent V))
      → All (λ (e : FleetEvent V). n ≤ e.seq) xs
      → Sorted n (sort_by_seq xs)
  unfolding sort_by_seq
  sort_by_seq-Sorted n [] h = tt
  sort_by_seq-Sorted n (x ∷ xs) h =
      insert_by_seq-Sorted n x (sort_by_seq xs) h.0 (sort_by_seq-Sorted n xs h.1)

  insert_by_seq-perm :
      (e : FleetEvent V) (xs : List (FleetEvent V)) → Perm (insert_by_seq e xs) (e ∷ xs)
  unfolding insert_by_seq
  insert_by_seq-perm e [] = Perm.refl _
  insert_by_seq-perm e (x ∷ xs) = elim (Bool-cases (leb e.seq x.seq)) [
    | inl first ↦ rw first (Perm.refl _)
    | inr later ↦ rw later (Perm.trans (Perm.cons x (insert_by_seq-perm e xs)) (Perm.swap e x xs))
  ]

  sort_by_seq-perm : (xs : List (FleetEvent V)) → Perm (sort_by_seq xs) xs
  unfolding sort_by_seq
  sort_by_seq-perm [] = Perm.refl _
  sort_by_seq-perm (x ∷ xs) =
      Perm.trans (insert_by_seq-perm x (sort_by_seq xs)) (Perm.cons x (sort_by_seq-perm xs))

  -- Inserting into a sorted list and then dropping what lies below a number.
  abbrev from : ℕ → List (FleetEvent V) → List (FleetEvent V)
  from m = filter (λ (e : FleetEvent V). leb m e.seq)

  from-insert :
      (m : ℕ) (e : FleetEvent V) (xs : List (FleetEvent V))
      → from m (insert_by_seq e xs)
        ≡ (if leb m e.seq then insert_by_seq e (from m xs) else from m xs)
  unfolding insert_by_seq
  from-insert m e [] = refl
  from-insert m e (x ∷ xs) = ground (arith, from-insert m e xs)

  from-sort : (m : ℕ) (xs : List (FleetEvent V)) → from m (sort_by_seq xs) ≡ sort_by_seq (from m xs)
  unfolding sort_by_seq
  from-sort m [] = refl
  from-sort m (x ∷ xs) = ground (arith, from-insert m x (sort_by_seq xs), from-sort m xs)

  filter_both :
      (p q : FleetEvent V → Bool) (xs : List (FleetEvent V))
      → filter q (filter p xs) ≡ filter (λ (e : FleetEvent V). p e && q e) xs
  filter_both p q [] = refl
  filter_both p q (x ∷ xs) = ground (arith, filter_both p q xs)

  filter_weaker :
      (key : String) (xs : List (FleetEvent V))
      → filter (λ (e : FleetEvent V). on_stream key e && leb 0 e.seq) xs ≡ filter (on_stream key) xs
  filter_weaker key [] = refl
  filter_weaker key (x ∷ xs) = ground (arith, filter_weaker key xs)

  -- A replay from a number on is the whole replay of the stream without the events below that
  -- number, whatever order the events were written in: so a reader that resumes misses nothing
  -- that a full read shows, and sees it in the same order.
  pub replay_from :
      (key : String) (from_seq : ℕ) (events : List (FleetEvent V))
      → replay key from_seq events
        ≡ filter (λ (e : FleetEvent V). leb from_seq e.seq) (replay key 0 events)
  unfolding replay
  replay_from key from_seq events =
      rw (filter_weaker key events, from-sort from_seq (filter (on_stream key) events), filter_both)
        refl

  All-zero : (xs : List (FleetEvent V)) → All (λ (e : FleetEvent V). 0 ≤ e.seq) xs
  All-zero [] = tt
  All-zero (x ∷ xs) = (omega arith, All-zero xs)

  All-filter :
      (key : String) (m : ℕ) (xs : List (FleetEvent V))
      → All
          (λ (e : FleetEvent V). m ≤ e.seq)
          (filter (λ (e : FleetEvent V). on_stream key e && leb m e.seq) xs)
  All-filter key m [] = tt
  All-filter key m (x ∷ xs) = ground (arith, All-filter key m xs)

  -- A replay holds exactly the stored events of the stream from the number on, each as often as it
  -- is stored, and in the order of their numbers.
  replay_lem :
      (key : String) (from_seq : ℕ) (events : List (FleetEvent V))
      → Perm
          (replay key from_seq events)
          (filter (λ (e : FleetEvent V). on_stream key e && leb from_seq e.seq) events)
        × Sorted from_seq (replay key from_seq events)
  unfolding replay
  replay_lem key from_seq events =
      (sort_by_seq-perm _, sort_by_seq-Sorted from_seq _ (All-filter key from_seq events))

  above_max :
      (m : ℕ) (key : String) (xs : List (FleetEvent V))
      → max_seq (filter (on_stream key) xs) < m
      → filter (λ (e : FleetEvent V). on_stream key e && leb m e.seq) xs ≡ []
  above_max m key [] h = refl
  above_max m key (x ∷ xs) h = ground (arith, above_max m key xs)

  max_seq-append :
      (xs ys : List (FleetEvent V)) → max_seq (xs ++ ys) ≡ max (max_seq xs) (max_seq ys)
  max_seq-append [] ys = omega arith
  max_seq-append (x ∷ xs) ys = omega (arith, max_seq-append xs ys)

  sort_single :
      (key : String) (m : ℕ) (e : FleetEvent V)
      → on_stream key e ≡ true
      → m ≤ e.seq
      → sort_by_seq (filter (λ (x : FleetEvent V). on_stream key x && leb m x.seq) (e ∷ []))
        ≡ e ∷ []
  unfolding sort_by_seq insert_by_seq
  sort_single key m e on h = ground arith

  -- Nothing of a stream is stored above its high-water mark, so an event numbered just above it is
  -- what a replay from there shows first, and moves the mark to its own number.
  high_water-append :
      (key : String) (events : List (FleetEvent V)) (e : FleetEvent V)
      → on_stream key e ≡ true
      → high_water key events < e.seq
      → (replay key (high_water key events + 1) (events ++ (e ∷ [])) ≡ e ∷ [])
        × (high_water key (events ++ (e ∷ [])) ≡ e.seq)
  unfolding replay high_water
  high_water-append key events e on h =
      let m : ℕ = max_seq (filter (on_stream key) events) + 1 in
      (
        rw (filter-append, above_max m key events (omega arith))
            (sort_single key m e on (omega arith)),
        rw (filter-append, max_seq-append) (ground arith),
      )
