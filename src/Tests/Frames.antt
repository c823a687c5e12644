-- ===== src/Tests/Frames.antt =====
-- Frames of caliban, and the environment of a provider.
use prospero.Prelude.{◌≡◌, refl, true, false, none, some, [], ◌∷◌, String, Option, get, insert}
use prospero.Json.{
  Value, boolean, u64, text, object, end, member, get_field, get_entry, as_str, as_bool, as_u64,
  first_key,
}
use prospero.Model.Event.{tool_finished, agent_finished}
use prospero.Caliband.Frames.{
  NormalizeOptions, event, normalize_frame, normalize_tagged, normalize_type, str_field, bool_field,
  capped_result, cap_chars, stop_label,
}
use prospero.Caliband.Frames.Bounds.{IsBounded, normalize_frame-IsBounded}
use prospero.Provider.{RepoProviderConfig, resolve_env, set_all, set_curated, provider_vars}

abbrev quiet : NormalizeOptions
quiet = record { include_thinking = false }

abbrev tool_end : Value
tool_end = object (
    member "type" (text "ToolCallEnd") (
      member "tool_use_id" (text "tu_1")
        (member "is_error" (boolean false) (member "result_text" (text "a.rs") end))))

abbrev run_end : Value
run_end = object (
    member "type" (text "RunEnd") (
      member "stopped_for" (object (member "MaxTurnsReached" (u64 5) end))
        (member "turn_count" (u64 4294967299) end)))

tool_end_normalized :
    normalize_frame tool_end quiet ≡ event (tool_finished "tu_1" "" true (some "a.rs") false)
unfolding normalize_frame normalize_tagged get_field get_entry as_str normalize_type str_field
    as_bool capped_result cap_chars bool_field
tool_end_normalized = refl

run_end_normalized : normalize_frame run_end quiet ≡ event (agent_finished "MaxTurnsReached" 0 3)
unfolding normalize_frame normalize_tagged get_field get_entry as_str normalize_type stop_label
    as_u64 first_key
run_end_normalized = refl

normalize_frame-IsBounded_example : IsBounded tool_end (normalize_frame tool_end quiet)
normalize_frame-IsBounded_example = normalize_frame-IsBounded tool_end quiet

abbrev openai : RepoProviderConfig
openai = record {
  provider = some "openai";
  base_url = none;
  api_key_from_env = some "KEY";
  env = ("KEEP", "raw") ∷ [];
}

abbrev process : String → Option String
process name = some "secret"

openai_key : get "OPENAI_API_KEY" (resolve_env [] openai process) ≡ some "secret"
unfolding resolve_env get set_all insert set_curated provider_vars
openai_key = refl
