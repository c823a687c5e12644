-- ===== src/Dashboard/Session/Invariant.antt =====
-- What holds of a session after any messages.
use mathlib.Core.List.{append-nil}
use prospero.Prelude.{
  ℕ, ◌<◌, ◌≤◌, ◌≡◌, refl, Bool, true, false, Option, none, some, List, [], ◌∷◌, ◌++◌, String, arith,
  Bool-cases, inl, inr, ◌==◌, any, ◌||◌,
}
use prospero.Model.Event.{FleetEvent, is_finished}
use prospero.Dashboard.Session.{
  StreamState, connecting, live, reconnecting, closed, Entry, StreamSession, Incoming, rendered,
  rendered-append, push, push_gap, apply, apply_all, new, u32_max, event, gap, unparseable, ended,
  undecodable, already_rendered,
}

abbrev pub Above : Option ℕ → ℕ → Type 0
Above none n = Unit
Above (some m) n = m < n

fresh_follows : (last : Option ℕ) (seq : ℕ) → already_rendered last seq ≡ false → Above last seq
unfolding already_rendered
fresh_follows none seq h = tt
fresh_follows (some last) seq h = ground arith

-- The retry counter that the state shows is the session's, and only a broken connection shows one.
abbrev pub Counted : StreamState → ℕ → Type 0
Counted (reconnecting attempt) n = (attempt ≡ n) × (0 < n)
Counted closed n = n ≡ 0
Counted live n = n ≡ 0
Counted connecting n = n ≡ 0

module _ {V : Type 0} where
  -- No event is rendered twice or out of order, all above `last_seq` of before.
  abbrev pub Ordered : Option ℕ → List (FleetEvent V) → Option ℕ → Type 0
  Ordered low [] high = low ≡ high
  Ordered none (ev ∷ rest) high = Ordered (some ev.seq) rest high
  Ordered (some n) (ev ∷ rest) high = (n < ev.seq) × Ordered (some ev.seq) rest high

  Ordered-append :
      (low : Option ℕ) (evs : List (FleetEvent V)) (high : Option ℕ) (ev : FleetEvent V)
      → Ordered low evs high
      → Above high ev.seq
      → Ordered low (evs ++ (ev ∷ [])) (some ev.seq)
  Ordered-append none [] none ev o a = refl
  Ordered-append none [] (some h) ev o a = cc
  Ordered-append (some n) [] none ev o a = cc
  Ordered-append (some n) [] (some h) ev o a = ground arith
  Ordered-append none (x ∷ rest) high ev o a = Ordered-append (some x.seq) rest high ev o a
  Ordered-append (some n) (x ∷ rest) high ev o a =
      (o.0, Ordered-append (some x.seq) rest high ev o.1 a)

  pub record IsValid (s : StreamSession V) : Type 0 where
    pub ordered : Ordered none (rendered s.entries) s.last_seq
    pub counted : Counted s.state s.attempt
    pub bounded : s.attempt ≤ u32_max
    pub finished : s.state ≡ closed → any is_finished (rendered s.entries) ≡ true

  pub new-IsValid : (id : String) → IsValid (new {V = V} id)
  unfolding new
  new-IsValid id = record {
    ordered = refl;
    counted = refl;
    bounded = omega arith;
    finished = λ e. cc;
  }

  any-append :
      (p : FleetEvent V → Bool) (xs : List (FleetEvent V)) (ev : FleetEvent V)
      → any p (xs ++ (ev ∷ [])) ≡ any p xs || p ev
  any-append p [] ev = ground arith
  any-append p (x ∷ xs) ev = ground (arith, any-append p xs ev)

  push-IsValid : (s : StreamSession V) (ev : FleetEvent V) → IsValid s → IsValid (push s ev).0
  unfolding push
  push-IsValid s ev v = elim (Bool-cases (already_rendered s.last_seq ev.seq)) [
    | inl old ↦ rw old v
    | inr fresh ↦ rw fresh (record {
      ordered = rw rendered-append (
          Ordered-append none (rendered s.entries) s.last_seq ev v.ordered
            (fresh_follows s.last_seq ev.seq fresh));
      counted = ground arith;
      bounded = omega arith;
      finished = λ e. rw (rendered-append, any-append) (ground arith);
    })
  ]

  rendered-gap : (xs : List (Entry V)) (k : ℕ) → rendered (xs ++ (Entry.gap k ∷ [])) ≡ rendered xs
  rendered-gap xs k = rw (rendered-append, append-nil)

  rendered-undecodable :
      (xs : List (Entry V)) (why : String) → rendered (xs ++ (undecodable why ∷ [])) ≡ rendered xs
  rendered-undecodable xs why = rw (rendered-append, append-nil)

  -- Every message keeps the session valid.
  pub apply-IsValid : (s : StreamSession V) (m : Incoming V) → IsValid s → IsValid (apply s m)
  unfolding apply
  apply-IsValid s (event ev) v = push-IsValid s ev v
  apply-IsValid s (gap signal) v = elim (Bool-cases (signal.skipped == 0)) [
    | inl none_missed ↦ unfold push_gap in rw none_missed v
    | inr missed ↦
        unfold push_gap in
        rw missed (record {
          ordered = rw (rendered-gap s.entries signal.skipped) v.ordered;
          counted = v.counted;
          bounded = v.bounded;
          finished = λ e. rw (rendered-gap s.entries signal.skipped) (v.finished e);
        })
  ]
  apply-IsValid s (unparseable why) v = record {
    ordered = rw (rendered-undecodable s.entries why) v.ordered;
    counted = v.counted;
    bounded = v.bounded;
    finished = λ e. rw (rendered-undecodable s.entries why) (v.finished e);
  }
  apply-IsValid s ended v = ground arith

  pub apply_all-IsValid :
      (s : StreamSession V) (ms : List (Incoming V)) → IsValid s → IsValid (apply_all s ms)
  unfolding apply_all
  apply_all-IsValid s [] v = v
  apply_all-IsValid s (m ∷ rest) v = apply_all-IsValid (apply s m) rest (apply-IsValid s m v)

  -- After any messages from any number of connections: the rendered events have strictly ascending
  -- numbers, the last of which is the session's `last_seq`; the retry counter fits a u32, is
  -- zero unless the connection is broken, and is the one that the state shows; and a session that
  -- counts as finished has rendered an event that ends the run.
  pub session-IsValid : (id : String) (ms : List (Incoming V)) → IsValid (apply_all (new id) ms)
  session-IsValid id ms = apply_all-IsValid (new id) ms (new-IsValid id)
