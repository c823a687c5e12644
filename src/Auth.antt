-- ===== src/Auth.antt =====
-- crates/core/src/auth.rs and crates/types/src/auth.rs: API tokens. A string or a digest is the list of its
-- bytes, each a number below 256.
pub mod Compare
pub mod Access
pub mod Session
use prospero.Prelude.{
  ℕ, zero, suc, ◌+◌, ◌*◌, ◌/◌, ◌%◌, ◌≤◌, ◌<◌, Bool, true, false, ◌&&◌, ◌||◌, Option, none, some,
  List, [], ◌∷◌, String, str_eq, leb, ltb, ◌==◌, length, all, find, if◌then◌else◌,
}

abbrev pub Bytes : Type 0
Bytes = List ℕ

-- A scope, ordered as listed.
pub data Scope : Type 0 where
  read operate admin : Scope

unfoldable pub rank : Scope → ℕ
rank read = 0
rank operate = 1
rank admin = 2

unfoldable pub as_str : Scope → String
as_str read = "read"
as_str operate = "operate"
as_str admin = "admin"

unfoldable pub parse_scope : String → Option Scope
parse_scope s =
    if str_eq s "read"
    then some read
    else (if str_eq s "operate"
        then some operate
        else (if str_eq s "admin" then some admin else none))

-- `x ^ y` and `x | y` on the low `w` bits.
unfoldable pub xor : ℕ → ℕ → ℕ → ℕ
xor zero x y = 0
xor (suc w) x y = (if x % 2 == y % 2 then 0 else 1) + 2 * xor w (x / 2) (y / 2)

unfoldable pub or : ℕ → ℕ → ℕ → ℕ
or zero x y = 0
or (suc w) x y = (if x % 2 + y % 2 == 0 then 0 else 1) + 2 * or w (x / 2) (y / 2)

-- The loop over the zipped bytes.
unfoldable pub accumulate : ℕ → Bytes → Bytes → ℕ
accumulate diff [] b = diff
accumulate diff (x ∷ a) [] = diff
accumulate diff (x ∷ a) (y ∷ b) = accumulate (or 8 diff (xor 8 x y)) a b

unfoldable pub constant_time_eq : Bytes → Bytes → Bool
constant_time_eq a b = if length a == length b then accumulate 0 a b == 0 else false

lower_or_digit : ℕ → Bool
lower_or_digit c = (leb 97 c && leb c 122) || (leb 48 c && leb c 57)

name_byte : ℕ → Bool
unfolding lower_or_digit
name_byte c = lower_or_digit c || (c == 95 || c == 45)

first_ok : Bytes → Bool
unfolding lower_or_digit
first_ok [] = false
first_ok (c ∷ rest) = lower_or_digit c

-- Whether `validate_token_name` accepts.
unfoldable pub validate_token_name : Bytes → Bool
unfolding first_ok name_byte
validate_token_name name = first_ok name && (all name_byte name && leb (length name) 63)

pub record TokenEntry : Type 0 where
  pub name : Bytes
  pub scope : Scope
  pub hash : Bytes

-- The loop of `authenticate`: every entry is compared, the first match is kept.
unfoldable pub keep_first : Bool → Option TokenEntry → TokenEntry → Option TokenEntry
keep_first true none e = some e
keep_first true (some f) e = some f
keep_first false found e = found

unfoldable pub scan : Bytes → List TokenEntry → Option TokenEntry → Option TokenEntry
unfolding keep_first
scan presented [] found = found
scan presented (e ∷ rest) found =
    scan presented rest (keep_first (constant_time_eq e.hash presented) found e)

-- `sha256` is SHA-256.
unfoldable pub authenticate : (sha256 : Bytes → Bytes) → List TokenEntry → Bytes → Option TokenEntry
authenticate sha256 entries token = scan (sha256 token) entries none

-- `==` on byte strings.
unfoldable pub bytes_eq : Bytes → Bytes → Bool
bytes_eq [] [] = true
bytes_eq [] (y ∷ b) = false
bytes_eq (x ∷ a) [] = false
bytes_eq (x ∷ a) (y ∷ b) = x == y && bytes_eq a b

unfoldable pub by_name : List TokenEntry → Bytes → Option TokenEntry
by_name entries name = find (λ e. bytes_eq e.name name) entries
