-- ===== src/Deadline.antt =====
-- crates/core/src/deadline.rs: per-spawn deadlines. A moment is a number of milliseconds after the first moment
-- that a chrono DateTime can hold, and `latest` is the last one; `parse` is the reading of an RFC 3339 stamp and `render` the writing of one.
pub mod Expiry
use prospero.Prelude.{
  ℕ, ◌+◌, ◌-◌, ◌*◌, ◌^◌, ◌/◌, ◌≤◌, ◌<◌, ◌≡◌, ◌↔◌, refl, Bool, true, false, not, Option, none, some,
  List, [], ◌∷◌, ◌++◌, String, leb, ltb, get, In, inl, inr, ◌⊎◌, arith, Bool-cases, Option-cases,
  if◌then◌else◌,
}
use prospero.Model.{Agent, AgentStatus, running, idle, is_terminal}
use prospero.Model.Event.{FleetEvent, EventKind, deadline_set}

unfoldable pub come : ℕ → Agent → String → Option ℕ → List (String × String)
come now a raw none = []
come now a raw (some at) = if leb at now then (a.id, raw) ∷ [] else []

-- An agent of which the deadline has passed, with the deadline as it was written.
unfoldable pub passed : (String → Option ℕ) → ℕ → Agent → Option String → List (String × String)
unfolding come
passed parse now a none = []
passed parse now a (some raw) = come now a raw (parse raw)

unfoldable pub expired :
    (parse : String → Option ℕ) → ℕ → List (String × String) → List Agent → List (String × String)
unfolding passed
expired parse now deadlines [] = []
expired parse now deadlines (a ∷ rest) =
    let later = expired parse now deadlines rest in
    if is_terminal a.status then later else passed parse now a (get a.id deadlines) ++ later

abbrev pub i64_max : ℕ
i64_max = 2 ^ 63 - 1

-- `started + delta` panics, which is `none`, if the sum is beyond `latest` or before the first moment.
unfoldable pub later_by : (latest started delta : ℕ) → Option (Option ℕ)
later_by latest started delta =
    if leb (started + delta) latest then some (some (started + delta)) else none

unfoldable pub earlier_by : (started delta : ℕ) → Option (Option ℕ)
earlier_by started delta = if leb delta started then some (some (started - delta)) else none

-- `started + Duration::try_seconds(secs as i64)?`: the cast of a u64 wraps around, and a duration holds
-- `i64::MAX / 1000` seconds at most, of either sign; with more there is no deadline, which is `some none`.
-- The outer `none` is a panic.
unfoldable pub deadline_at : (latest started secs : ℕ) → Option (Option ℕ)
deadline_at latest started secs =
    if leb secs i64_max
    then if leb secs (i64_max / 1000) then later_by latest started (1000 * secs) else some none
    else if leb (2 ^ 64 - secs) (i64_max / 1000)
    then earlier_by started (1000 * (2 ^ 64 - secs))
    else some none

written : (ℕ → String) → Option ℕ → Option String
written render none = none
written render (some at) = some (render at)

unfoldable pub deadline_from :
    (render : ℕ → String) → (latest started : ℕ) → Option ℕ → Option (Option String)
unfolding written
deadline_from render latest started none = some none
deadline_from render latest started (some secs) = elim (deadline_at latest started secs) [
  | none ↦ none
  | some o ↦ some (written render o)
]

set_by : {V : Type 0} → EventKind V → Option String
set_by (deadline_set deadline) = some deadline
set_by _ = none

or_else : Option String → Option String → Option String
or_else none o = o
or_else (some raw) o = some raw

-- The last deadline in a history.
unfoldable pub deadline_in : {V : Type 0} → List (FleetEvent V) → Option String
unfolding set_by or_else
deadline_in [] = none
deadline_in (e ∷ rest) = or_else (deadline_in rest) (set_by e.kind)

-- The agent is to be killed: it has not stopped, and it has a deadline, that can be read and has come.
abbrev pub Overdue :
    (String → Option ℕ) → ℕ → List (String × String) → String → String → Agent → Type 0
Overdue parse now deadlines id raw a =
    (a.id ≡ id)
    × (is_terminal a.status ≡ false)
    × (get a.id deadlines ≡ some raw)
    × ((at : ℕ) × (parse raw ≡ some at) × (at ≤ now))
