-- ===== src/Caliband/Frames/Bounds.antt =====
-- What bounds the events that frames become: the cap on a tool's result, the width of a count.
use Prim.Native.Char.{code}
use prospero.Prelude.{
  if_lem, inl, inr, ℕ, zero, suc, ◌≤◌, ◌<◌, ◌^◌, ◌%◌, ◌↔◌, ◌≡◌, refl, ap, Bool, true, false, ◌||◌,
  Option, none, some, List, [], ◌∷◌, String, arith, ltb, take, length, str_eq, eq_iff, Bool-cases,
}
use prospero.Json.{
  Value, null, boolean, u64, other_number, text, array, object, get_field, as_str, as_bool, as_u64,
}
use prospero.Model.Event.{tool_finished, agent_finished}
use prospero.Caliband.Frames.{
  NormalizeOptions, event, cap_chars, capped_result, normalize_type, normalize_frame,
  normalize_tagged, or_else, tool_result_cap, read_field, bool_field, Normalized,
}

abbrev pub chars : String → List ℕ
chars String.[] = []
chars (String.◌∷◌ c s) = code c ∷ chars s

pub cap_chars-take : (s : String) (n : ℕ) → chars (cap_chars s n).0 ≡ take n (chars s)
unfolding cap_chars
cap_chars-take String.[] zero = refl
cap_chars-take String.[] (suc n) = refl
cap_chars-take (String.◌∷◌ c s) zero = refl
cap_chars-take (String.◌∷◌ c s) (suc n) = ap (λ cs. code c ∷ cs) (cap_chars-take s n)

pub cap_chars-cut : (s : String) (n : ℕ) → (cap_chars s n).1 ≡ ltb n (length (chars s))
unfolding cap_chars
cap_chars-cut String.[] zero = refl
cap_chars-cut String.[] (suc n) = ground arith
cap_chars-cut (String.◌∷◌ c s) zero = ground arith
cap_chars-cut (String.◌∷◌ c s) (suc n) = ground (arith, cap_chars-cut s n)

length-take-le {ℓ} : {A : Type ℓ} (n : ℕ) (xs : List A) → length (take n xs) ≤ n
length-take-le zero xs = omega arith
length-take-le (suc n) [] = omega arith
length-take-le (suc n) (x ∷ xs) = omega (arith, length-take-le n xs)

-- The frame says that it has cut its text itself.
abbrev pub says_truncated : Option Value → Bool
says_truncated (some (boolean b)) = b
says_truncated _ = false

says : (o : Option Value) → or_else false (read_field as_bool o) ≡ says_truncated o
unfolding read_field or_else as_bool
says none = refl
says (some (boolean b)) = refl
says (some null) = refl
says (some (u64 n)) = refl
says (some (other_number n)) = refl
says (some (text s)) = refl
says (some (array items)) = refl
says (some (object es)) = refl

says_truncated_lem :
    (frame : Value) → bool_field frame "truncated" ≡ says_truncated (get_field frame "truncated")
unfolding bool_field
says_truncated_lem frame = says (get_field frame "truncated")

-- What a frame's field says of the result of a tool: the text itself, cut to 8192 characters.
abbrev pub IsResult : Value → Option String → Bool → Type 0
IsResult frame none cut =
    (read_field as_str (get_field frame "result_text") ≡ none)
    × (cut ≡ says_truncated (get_field frame "truncated"))
IsResult frame (some body) cut =
    (full : String) × (read_field as_str (get_field frame "result_text") ≡ some full)
    × (chars body ≡ take 8192 (chars full))
    × (length (chars body) ≤ 8192)
    × (cut ≡ (ltb 8192 (length (chars full)) || says_truncated (get_field frame "truncated")))

-- What is promised of the events that carry a size.
abbrev pub IsBounded : Value → Normalized → Type 0
IsBounded frame (event (tool_finished id name ok result cut)) = IsResult frame result cut
IsBounded frame (event (agent_finished outcome cost_usd turns)) = turns < 2 ^ 32
IsBounded frame _ = Unit

capped_result-IsResult :
    (frame : Value) (o : Option String)
    → read_field as_str (get_field frame "result_text") ≡ o
    → IsResult frame (capped_result o).0 ((capped_result o).1 || bool_field frame "truncated")
unfolding capped_result
capped_result-IsResult frame none h = (h, says_truncated_lem frame)
capped_result-IsResult frame (some full) h = (
  full,
  h,
  cap_chars-take full tool_result_cap,
  rw (cap_chars-take full tool_result_cap) (length-take-le tool_result_cap (chars full)),
  rw (cap_chars-cut full tool_result_cap, says_truncated_lem frame) refl,
)

turns_lem : (n : ℕ) → n % 2 ^ 32 < 2 ^ 32
turns_lem n = ground arith

normalize_type-IsBounded :
    (frame : Value) (opts : NormalizeOptions) (ty : String)
    → IsBounded frame (normalize_type frame opts ty)
unfolding normalize_type
normalize_type-IsBounded frame opts ty =
    let P = IsBounded frame in
    if_lem P (str_eq ty "AssistantTextDelta") tt (
      if_lem P (str_eq ty "AssistantThinkingDelta") (if_lem P opts.include_thinking tt tt) (
        if_lem P (str_eq ty "ToolCallStart") tt (
          if_lem P (str_eq ty "ToolCallEnd")
            (capped_result-IsResult frame (read_field as_str (get_field frame "result_text")) refl)
            (if_lem P (str_eq ty "RunEnd")
              (turns_lem (or_else 0 (read_field as_u64 (get_field frame "turn_count"))))
              (if_lem P
                (str_eq ty "TurnStart" || str_eq ty "ToolCallInputDelta" || str_eq ty "TurnEnd") tt
                tt)))))

normalize_tagged-IsBounded :
    (frame : Value) (opts : NormalizeOptions) (o : Option String)
    → IsBounded frame (normalize_tagged frame opts o)
unfolding normalize_tagged
normalize_tagged-IsBounded frame opts none = tt
normalize_tagged-IsBounded frame opts (some ty) = normalize_type-IsBounded frame opts ty

-- Whatever the frame, the result on a tool's event is the first 8192 characters of the frame's
-- `result_text`, flagged as truncated exactly when that text is longer or the frame says so, and absent
-- when the frame has no such text; and the turns of a finished run are below 2 to the 32.
pub normalize_frame-IsBounded :
    (frame : Value) (opts : NormalizeOptions) → IsBounded frame (normalize_frame frame opts)
unfolding normalize_frame
normalize_frame-IsBounded frame opts =
    normalize_tagged-IsBounded frame opts (read_field as_str (get_field frame "type"))

-- Whether a frame closes the run.
abbrev pub finishes : Normalized → Bool
finishes (event (agent_finished outcome cost_usd turns)) = true
finishes _ = false

finishes_type_iff :
    (frame : Value) (opts : NormalizeOptions) (ty : String)
    → finishes (normalize_type frame opts ty) ≡ str_eq ty "RunEnd"
unfolding normalize_type
finishes_type_iff frame opts ty = elim (Bool-cases (str_eq ty "RunEnd")) [
  | inl h ↦ rw ((eq_iff ty "RunEnd").0 h) refl
  | inr h ↦
      let P = λ (n : Normalized). finishes n ≡ false in
      rw h (
        if_lem P (str_eq ty "AssistantTextDelta") refl (
          if_lem P (str_eq ty "AssistantThinkingDelta") (if_lem P opts.include_thinking refl refl) (
            if_lem P (str_eq ty "ToolCallStart") refl (
              if_lem P (str_eq ty "ToolCallEnd") refl (
                if_lem P
                  (str_eq ty "TurnStart" || str_eq ty "ToolCallInputDelta" || str_eq ty "TurnEnd")
                  refl refl)))))
]

finishes_tagged_iff :
    (frame : Value) (opts : NormalizeOptions) (o : Option String)
    → (finishes (normalize_tagged frame opts o) ≡ true) ↔ (o ≡ some "RunEnd")
unfolding normalize_tagged
finishes_tagged_iff frame opts none = ground arith
finishes_tagged_iff frame opts (some ty) =
    ground (arith, finishes_type_iff frame opts ty, eq_iff ty "RunEnd")

-- A frame becomes the event that closes a run exactly when its `type` is the text `RunEnd`.
normalize_frame-finishes_iff :
    (frame : Value) (opts : NormalizeOptions)
    → (finishes (normalize_frame frame opts) ≡ true)
      ↔ (read_field as_str (get_field frame "type") ≡ some "RunEnd")
unfolding normalize_frame
normalize_frame-finishes_iff frame opts =
    finishes_tagged_iff frame opts (read_field as_str (get_field frame "type"))
