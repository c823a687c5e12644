-- ===== src/Automation/Template.antt =====
-- Task templates and schedules of crates/core/src/automation.rs. `render` is serde_json's `to_string`.
pub mod Bounds
use Prim.Native.String.{◌++◌ as str_append}
use prospero.Prelude.{
  ℕ, zero, suc, ◌+◌, ◌==◌, Bool, true, false, not, ◌||◌, Option, none, some, List, [], ◌∷◌, String,
  str_eq, if◌then◌else◌, leb, ◌⊎◌, inl, inr, trim, trim_start, cut, bytes, take_bytes, is_empty,
}
use prospero.Json.{Value, null, text, object, get_field}

-- The parts of a text between the places of another, by fuel.
split_from : ℕ → String → String → Option (String × String) → List String
split_from n p s none = s ∷ []
split_from zero p s (some (before, after)) = s ∷ []
split_from (suc n) p s (some (before, after)) = before ∷ split_from n p after (cut p after)

-- `split`, by the bytes of the text, of which each place takes one at least.
unfoldable pub split_all : String → String → List String
unfolding split_from
split_all p s = split_from (bytes s) p s (cut p s)

-- Why a template is not filled in.
pub data Unfilled : Type 0 where
  absent is_null : (path : String) → Unfilled

-- The fields of a path, one within the other.
follow : List String → Option Value → Option Value
follow [] cursor = cursor
follow (segment ∷ rest) none = none
follow (segment ∷ rest) (some v) = follow rest (get_field v segment)

abbrev pub max_substitution : ℕ
max_substitution = 4096

unfoldable pub truncate : String → String
truncate value =
    if leb (bytes value) max_substitution
    then value
    else str_append (take_bytes max_substitution value) " […truncated]"

-- A value as it is put into the text.
rendered : (Value → String) → String → Option Value → Unfilled ⊎ String
rendered render path none = inl (absent path)
rendered render path (some null) = inl (is_null path)
rendered render path (some (text s)) = inr (truncate s)
rendered render path (some v) = inr (truncate (render v))

unfoldable pub lookup : (Value → String) → Value → String → Unfilled ⊎ String
unfolding follow rendered
lookup render payload path = rendered render path (follow (split_all "." path) (some payload))

-- What comes before a filled slot, the value, and what follows.
fill : String → Unfilled ⊎ String → Option (Unfilled ⊎ String) → Option (Unfilled ⊎ String)
fill before (inl e) later = some (inl e)
fill before (inr value) none = none
fill before (inr value) (some (inl e)) = some (inl e)
fill before (inr value) (some (inr rest)) = some (inr (str_append before (str_append value rest)))

-- What the next turn of the loop finds: the end of the text, or a slot that is closed.
unfoldable pub closed_slot : String → Option (String × String) → Option (String × String × String)
closed_slot before none = none
closed_slot before (some (path, after)) = some (before, path, after)

unfoldable pub next_slot : Option (String × String) → Option (String × String × String)
next_slot none = none
next_slot (some (before, after)) = closed_slot before (cut "}}" after)

-- One turn, given the rest of the loop. A slot that is not closed is left as it is written.
unfoldable pub fill_slot :
    (Value → String)
    → Value
    → String
    → (String → Option (Unfilled ⊎ String))
    → Option (String × String × String)
    → Option (Unfilled ⊎ String)
unfolding fill
fill_slot render payload rest later none = some (inr rest)
fill_slot render payload rest later (some (before, path, after)) =
    fill before (lookup render payload (trim path)) (later after)

-- The loop, by fuel; nothing when it runs out.
unfoldable pub interpolate_from : (Value → String) → Value → ℕ → String → Option (Unfilled ⊎ String)
unfolding fill_slot
interpolate_from render payload zero rest = none
interpolate_from render payload (suc n) rest =
    fill_slot render payload rest (interpolate_from render payload n) (next_slot (cut "{{" rest))

unfoldable pub interpolate : (Value → String) → String → Value → Option (Unfilled ⊎ String)
interpolate render template payload =
    interpolate_from render payload (suc (bytes template)) template

-- The words of a text; `inside` says that one has begun before it.
unfoldable pub count_words : (inside : Bool) → String → ℕ
count_words inside String.[] = 0
count_words inside (String.◌∷◌ c s) =
    let blank = is_empty (trim_start (String.◌∷◌ c String.[])) in
    let rest = count_words (not blank) s in if blank || inside then rest else suc rest

-- A schedule of five fields is one of six at second 0.
unfoldable pub normalize_schedule : String → String
normalize_schedule schedule =
    let trimmed = trim schedule in
    if count_words false trimmed == 5 then str_append "0 " trimmed else trimmed
