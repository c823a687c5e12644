-- ===== src/Caliband/Frames.antt =====
-- crates/core/src/caliband/stream.rs: a frame of caliban's becomes an event, is dropped or is unknown.
pub mod Bounds
use prospero.Prelude.{
  ℕ, zero, suc, ◌*◌, ◌%◌, ◌^◌, Bool, true, false, ◌||◌, not, Option, none, some, str_eq,
  if◌then◌else◌, String,
}
use prospero.Json.{Value, null, text, object, get_field, as_str, as_bool, as_u64, first_key}
use prospero.Model.Event.{
  EventKind, output, stdout, thinking, tool_started, tool_finished, agent_finished,
}

pub record NormalizeOptions : Type 0 where
  pub include_thinking : Bool

pub data Normalized : Type 0 where
  event : EventKind Value → Normalized
  dropped unknown : Normalized

abbrev pub tool_result_cap : ℕ
tool_result_cap = 8 * 1024

-- The text without its characters from `max` on, and whether there was one.
unfoldable pub cap_chars : String → ℕ → String × Bool
cap_chars String.[] max = ("", false)
cap_chars (String.◌∷◌ c s) zero = ("", true)
cap_chars (String.◌∷◌ c s) (suc max) =
    let (head, capped) = cap_chars s max in (String.◌∷◌ c head, capped)

-- The reading of a field, or nothing when it is missing or has another type.
unfoldable pub read_field {ℓ} : {A : Type ℓ} → (Value → Option A) → Option Value → Option A
read_field read none = none
read_field read (some v) = read v

unfoldable pub or_else {ℓ} : {A : Type ℓ} → A → Option A → A
or_else a none = a
or_else a (some b) = b

unfoldable pub bool_field : Value → String → Bool
unfolding read_field or_else
bool_field frame key = or_else false (read_field as_bool (get_field frame key))

unfoldable pub str_field : Value → String → String
unfolding read_field or_else
str_field frame key = or_else "" (read_field as_str (get_field frame key))

unfoldable pub stop_label : Option Value → String
unfolding or_else
stop_label (some (text s)) = s
stop_label (some (object es)) = or_else "" (first_key es)
stop_label _ = ""

-- The result of a tool, cut to the cap.
unfoldable pub capped_result : Option String → Option String × Bool
capped_result none = (none, false)
capped_result (some body) =
    let (head, capped) = cap_chars body tool_result_cap in (some head, capped)

unfoldable pub normalize_type : Value → NormalizeOptions → String → Normalized
unfolding read_field or_else
normalize_type frame opts ty =
    if str_eq ty "AssistantTextDelta"
    then event (output stdout (str_field frame "text"))
    else (if str_eq ty "AssistantThinkingDelta"
        then (if opts.include_thinking
            then event (output thinking (str_field frame "text"))
            else dropped)
        else (if str_eq ty "ToolCallStart"
            then event (tool_started (str_field frame "tool_use_id") (str_field frame "name") null)
            else (if str_eq ty "ToolCallEnd"
                then (let (result, capped) =
                      capped_result (read_field as_str (get_field frame "result_text")) in
                    event (
                      tool_finished (str_field frame "tool_use_id") ""
                        (not (or_else false (read_field as_bool (get_field frame "is_error"))))
                        result (capped || bool_field frame "truncated")))
                else (if str_eq ty "RunEnd"
                    then event (
                        agent_finished (stop_label (get_field frame "stopped_for")) 0
                          (or_else 0 (read_field as_u64 (get_field frame "turn_count")) % 2 ^ 32))
                    else (if str_eq ty "TurnStart"
                          || str_eq ty "ToolCallInputDelta"
                          || str_eq ty "TurnEnd"
                        then dropped
                        else unknown)))))

-- A frame by its type; one without a type is unknown.
unfoldable pub normalize_tagged : Value → NormalizeOptions → Option String → Normalized
normalize_tagged frame opts none = unknown
normalize_tagged frame opts (some ty) = normalize_type frame opts ty

unfoldable pub normalize_frame : Value → NormalizeOptions → Normalized
unfolding read_field
normalize_frame frame opts =
    normalize_tagged frame opts (read_field as_str (get_field frame "type"))
