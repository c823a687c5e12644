-- ===== src/Prelude/Texts.antt =====
-- Texts as the code reads them: white space as Unicode has it, prefixes, places, and sizes in UTF-8.
use Prim.Native.Nat.{ℕ, ◌+◌, ◌-◌}
use Prim.Native.Char.{Char, code}
use Prim.Native.String.{String}
use mathlib.Core.Option.{Option, none, some}
use mathlib.Core.Bool.{Bool, true, false, ◌&&◌, ◌||◌}
use prospero.Prelude.Tests.{leb, ltb, ◌==◌, if◌then◌else◌}

unfoldable pub is_whitespace : ℕ → Bool
is_whitespace c =
    leb 9 c && leb c 13
    || c == 32
    || c == 133
    || c == 160
    || c == 5760
    || leb 8192 c && leb c 8202
    || c == 8232
    || c == 8233
    || c == 8239
    || c == 8287
    || c == 12288

abbrev pub is_empty : String → Bool
is_empty String.[] = true
is_empty (String.◌∷◌ c s) = false

unfoldable pub trim_end : String → String
unfolding is_whitespace
trim_end String.[] = ""
trim_end (String.◌∷◌ c s) =
    let rest = trim_end s in
    if is_empty rest && is_whitespace (code c) then "" else String.◌∷◌ c rest

unfoldable pub trim_start : String → String
unfolding is_whitespace
trim_start String.[] = ""
trim_start (String.◌∷◌ c s) = if is_whitespace (code c) then trim_start s else String.◌∷◌ c s

unfoldable pub trim : String → String
trim s = trim_end (trim_start s)

-- What follows the prefix, if the text begins with it.
unfoldable pub strip_prefix : String → String → Option String
strip_prefix String.[] s = some s
strip_prefix (String.◌∷◌ c p) String.[] = none
strip_prefix (String.◌∷◌ c p) (String.◌∷◌ d s) =
    let rest = strip_prefix p s in if code c == code d then rest else none

unfoldable pub first_cut :
    Char → String → Option String → Option (String × String) → Option (String × String)
first_cut c s (some after) later = some ("", after)
first_cut c s none (some (before, after)) = some (String.◌∷◌ c before, after)
first_cut c s none none = none

-- What stands before and after the first place of a text.
unfoldable pub cut : String → String → Option (String × String)
cut p String.[] = none
cut p (String.◌∷◌ c s) =
    let later = cut p s in first_cut c s (strip_prefix p (String.◌∷◌ c s)) later

-- The bytes of a character in UTF-8.
unfoldable pub width : ℕ → ℕ
width c = if ltb c 128 then 1 else if ltb c 2048 then 2 else if ltb c 65536 then 3 else 4

-- `str::len`.
unfoldable pub bytes : String → ℕ
bytes String.[] = 0
bytes (String.◌∷◌ c s) = width (code c) + bytes s

-- The text up to the last boundary of characters within so many bytes.
unfoldable pub take_bytes : ℕ → String → String
take_bytes n String.[] = ""
take_bytes n (String.◌∷◌ c s) =
    let rest = take_bytes (n - width (code c)) s in
    if leb (width (code c)) n then String.◌∷◌ c rest else ""
