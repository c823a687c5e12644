-- ===== src/Dashboard/Session.antt =====
-- crates/dashboard/src/stream.rs: one agent's stream in the dashboard, and `apply` of
-- crates/dashboard/src/sse.rs, which feeds it. A duration is a number of milliseconds.
pub mod Invariant
pub mod Connection
use prospero.Prelude.{
  ℕ, ◌+◌, ◌-◌, ◌*◌, ◌^◌, min, Bool, true, false, not, Option, none, some, List, [], ◌∷◌, ◌++◌,
  String, leb, ◌==◌, ◌≡◌, refl, ap, ◌<◌, if◌then◌else◌,
}
use prospero.Model.Event.{FleetEvent, is_finished}

-- Health of the connection.
pub data StreamState : Type 0 where
  connecting live : StreamState
  reconnecting : (attempt : ℕ) → StreamState
  closed : StreamState

unfoldable pub is_problem : StreamState → Bool
is_problem (reconnecting attempt) = true
is_problem _ = false

-- A rendered entry.
pub data Entry (V : Type 0) : Type 0 where
  event : FleetEvent V → Entry V
  gap : (skipped : ℕ) → Entry V
  undecodable : (why : String) → Entry V

-- crates/types/src/api.rs
pub record GapSignal : Type 0 where
  pub skipped : ℕ
  pub last_seq : ℕ

pub record StreamSession (V : Type 0) : Type 0 where
  pub agent_id : String
  pub entries : List (Entry V)
  pub last_seq : Option ℕ
  pub state : StreamState
  pub attempt : ℕ

abbrev pub u32_max : ℕ
u32_max = 2 ^ 32 - 1

abbrev pub max_backoff : ℕ
max_backoff = 15000

-- The shift is by 6 at most, so neither it nor the product leaves a u64.
unfoldable pub backoff_for : ℕ → ℕ
backoff_for attempt = if attempt == 0 then 500 else min (500 * 2 ^ min attempt 6) max_backoff

is_closed : StreamState → Bool
is_closed closed = true
is_closed _ = false

-- What comes off the wire.
pub data Incoming (V : Type 0) : Type 0 where
  event : FleetEvent V → Incoming V
  gap : GapSignal → Incoming V
  unparseable : String → Incoming V
  ended : Incoming V

unfoldable pub already_rendered : Option ℕ → ℕ → Bool
already_rendered none seq = false
already_rendered (some last) seq = leb seq last

module _ {V : Type 0} where
  unfoldable pub new : String → StreamSession V
  new agent_id = record {
    agent_id = agent_id;
    entries = [];
    last_seq = none;
    state = connecting;
    attempt = 0;
  }

  -- Where a connection resumes: one past the last number rendered.
  unfoldable pub resume_from : StreamSession V → ℕ
  resume_from s = elim s.last_seq [ none ↦ 0 | some last ↦ last + 1 ]

  unfoldable pub push : StreamSession V → FleetEvent V → StreamSession V × Bool
  unfolding is_finished already_rendered
  push s ev = if already_rendered s.last_seq ev.seq then (s, false) else (
    record s {
      last_seq = some ev.seq;
      entries = s.entries ++ (Entry.event ev ∷ []);
      state = if is_finished ev then closed else live;
      attempt = 0;
    },
    true,
  )

  unfoldable pub push_gap : StreamSession V → GapSignal → StreamSession V
  push_gap s signal =
      if signal.skipped == 0
      then s
      else record s { entries = s.entries ++ (Entry.gap signal.skipped ∷ []) }

  unfoldable pub push_undecodable : StreamSession V → String → StreamSession V
  push_undecodable s why = record s { entries = s.entries ++ (undecodable why ∷ []) }

  -- `saturating_add` on a u32.
  unfoldable pub disconnected : StreamSession V → StreamSession V
  unfolding is_closed
  disconnected s =
      let attempt = min (s.attempt + 1) u32_max in
      if is_closed s.state then s else record s { attempt = attempt; state = reconnecting attempt }

  unfoldable pub backoff : StreamSession V → ℕ
  backoff s = backoff_for s.attempt

  unfoldable pub should_retry : StreamSession V → Bool
  unfolding is_closed
  should_retry s = not (is_closed s.state)

  unfoldable pub apply : StreamSession V → Incoming V → StreamSession V
  unfolding push push_gap push_undecodable disconnected
  apply s (event ev) = (push s ev).0
  apply s (gap signal) = push_gap s signal
  apply s (unparseable why) = push_undecodable s why
  apply s ended = disconnected s

  -- The messages of a connection, one after another.
  unfoldable pub apply_all : StreamSession V → List (Incoming V) → StreamSession V
  apply_all s [] = s
  apply_all s (m ∷ rest) = apply_all (apply s m) rest

  -- The events among the entries.
  abbrev pub rendered : List (Entry V) → List (FleetEvent V)
  rendered [] = []
  rendered (Entry.event ev ∷ rest) = ev ∷ rendered rest
  rendered (Entry.gap skipped ∷ rest) = rendered rest
  rendered (undecodable why ∷ rest) = rendered rest

  pub rendered-append : (xs ys : List (Entry V)) → rendered (xs ++ ys) ≡ rendered xs ++ rendered ys
  rendered-append [] ys = refl
  rendered-append (Entry.event ev ∷ rest) ys = ap (◌∷◌ ev) (rendered-append rest ys)
  rendered-append (Entry.gap skipped ∷ rest) ys = rendered-append rest ys
  rendered-append (undecodable why ∷ rest) ys = rendered-append rest ys
