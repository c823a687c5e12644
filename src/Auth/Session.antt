-- ===== src/Auth/Session.antt =====
-- crates/api/src/auth/session.rs: stateless session cookies. HMAC-SHA-256 and the base64 encoding are
-- parameters. A time is in seconds of the Unix epoch.
pub mod RoundTrip
use prospero.Prelude.{
  ℕ, zero, suc, ◌+◌, ◌*◌, ◌/◌, ◌%◌, ◌^◌, ◌-◌, Bool, true, false, not, ◌&&◌, Option, none, some,
  List, [], ◌∷◌, ◌++◌, leb, ltb, ◌==◌, take, all, if◌then◌else◌,
}
use prospero.Auth.{Bytes, TokenEntry, by_name, bytes_eq, constant_time_eq}

abbrev pub session_ttl_secs : ℕ
session_ttl_secs = 12 * 60 * 60

-- An i64 that a cookie states.
pub data I64 : Type 0 where
  nonneg negative : ℕ → I64

unfoldable pub digit : ℕ → Bool
digit c = leb 48 c && leb c 57

-- The value of decimal digits after `n`, when there is nothing else.
unfoldable pub read_digits : ℕ → Bytes → Option ℕ
unfolding digit
read_digits n [] = some n
read_digits n (c ∷ rest) =
    let after = read_digits (10 * n + (c - 48)) rest in if digit c then after else none

unfoldable pub in_range : ℕ → (ℕ → I64) → Option ℕ → Option I64
in_range bound sign none = none
in_range bound sign (some n) = if leb n bound then some (sign n) else none

unfoldable pub unsigned : (bound : ℕ) → (ℕ → I64) → Bytes → Option I64
unfolding in_range
unsigned bound sign [] = none
unsigned bound sign (c ∷ rest) = in_range bound sign (read_digits 0 (c ∷ rest))

-- `str::parse::<i64>`: a sign or none, then digits, within an i64.
unfoldable pub parse_i64 : Bytes → Option I64
unfolding unsigned
parse_i64 [] = none
parse_i64 (c ∷ rest) =
    if c == 45
    then unsigned (2 ^ 63) negative rest
    else (if c == 43
        then unsigned (2 ^ 63 - 1) nonneg rest
        else unsigned (2 ^ 63 - 1) nonneg (c ∷ rest))

-- The decimal digits of a number below `10 ^ fuel`; an i64 has at most 19.
unfoldable pub digits : ℕ → ℕ → Bytes
digits zero n = []
digits (suc fuel) n =
    let rest = digits fuel (n / 10) in
    if ltb n 10 then (48 + n) ∷ [] else rest ++ ((48 + n % 10) ∷ [])

unfoldable pub show_i64 : I64 → Bytes
show_i64 (nonneg n) = digits 19 n
show_i64 (negative n) = 45 ∷ digits 19 n

-- What stands before and after the first `sep`.
unfoldable pub prepend : ℕ → Option (Bytes × Bytes) → Option (Bytes × Bytes)
prepend c none = none
prepend c (some (before, after)) = some (c ∷ before, after)

unfoldable pub split_once : ℕ → Bytes → Option (Bytes × Bytes)
unfolding prepend
split_once sep [] = none
split_once sep (c ∷ rest) =
    let split = prepend c (split_once sep rest) in if c == sep then some ([], rest) else split

infixl 5 ◌>>=◌
abbrev pub ◌>>=◌ {ℓ κ} : {A : Type ℓ} {B : Type κ} → Option A → (A → Option B) → Option B
none >>= f = none
some a >>= f = f a

unfoldable pub expired : I64 → ℕ → Bool
expired (nonneg n) now = leb n now
expired (negative n) now = true

module _ (hmac : Bytes → Bytes → Bytes) (base64 : Bytes → Bytes) where
  -- `v1\n{name}\n{expires}\n` and the digest's first 16 bytes.
  unfoldable pub mac : Bytes → Bytes → I64 → Bytes → Bytes
  mac key name expires hash = base64 (
      hmac key (
        (118 ∷ 49 ∷ 10 ∷ []) ++ name ++ (10 ∷ []) ++ show_i64 expires ++ (10 ∷ []) ++ take 16 hash))

  unfoldable pub sign : Bytes → TokenEntry → I64 → Bytes
  sign key entry expires =
      (118 ∷ 49 ∷ [])
      ++ (46 ∷ entry.name
          ++ (46 ∷ show_i64 expires ++ (46 ∷ mac key entry.name expires entry.hash)))

  unfoldable pub verify : Bytes → List TokenEntry → Bytes → ℕ → Option (TokenEntry × I64)
  unfolding expired
  verify key tokens value now = do
    (version, rest) ← split_once 46 value
    (name, rest') ← split_once 46 rest
    (stated, given) ← split_once 46 rest'
    if not (bytes_eq version (118 ∷ 49 ∷ [])) then none else do
      expires ← parse_i64 stated
      if expired expires now then none else do
        entry ← by_name tokens name
        if constant_time_eq (mac key name expires entry.hash) given
            then some (entry, expires)
            else none
