-- ===== src/Auth/Session/RoundTrip.antt =====
-- What `sign` writes, `verify` reads.
use prospero.Prelude.{
  ℕ, zero, suc, ◌+◌, ◌*◌, ◌/◌, ◌%◌, ◌^◌, ◌-◌, ◌≤◌, ◌<◌, ◌≡◌, ◌≢◌, false, some, List, [], ◌∷◌, ◌++◌,
  ltb, All, arith, length, length-append, Bool-cases, inl, inr,
}
use prospero.Auth.{Bytes, TokenEntry, by_name, bytes_eq}
use prospero.Auth.Compare.{constant_time_eq-same}
use prospero.Auth.Session.{
  nonneg, digit, read_digits, in_range, unsigned, parse_i64, digits, show_i64, prepend, split_once,
  expired, mac, sign, verify,
}

abbrev pub Free : ℕ → Bytes → Type 0
Free sep b = All (λ c. c ≢ sep) b

split_once-append :
    (sep : ℕ) (a b : Bytes) → Free sep a → split_once sep (a ++ (sep ∷ b)) ≡ some (a, b)
unfolding split_once prepend
split_once-append sep [] b f = ground arith
split_once-append sep (c ∷ a) b f = ground (arith, split_once-append sep a b f.1)

abbrev Digit : ℕ → Type 0
Digit c = (48 ≤ c) × (c ≤ 57)

digits-snoc : (b : Bytes) (c : ℕ) → All Digit b → Digit c → All Digit (b ++ (c ∷ []))
digits-snoc [] c a d = (d, tt)
digits-snoc (x ∷ b) c a d = (a.0, digits-snoc b c a.1 d)

digits-Digit : (fuel n : ℕ) → All Digit (digits fuel n)
unfolding digits
digits-Digit zero n = tt
digits-Digit (suc fuel) n = elim (Bool-cases (ltb n 10)) [
  | inl e ↦ rw (e) (ground arith, tt)
  | inr e ↦
      rw (e) (
        digits-snoc (digits fuel (n / 10)) (48 + n % 10) (digits-Digit fuel (n / 10))
          (ground arith))
]

read_digits-append :
    (m k : ℕ) (a b : Bytes) → read_digits m a ≡ some k → read_digits m (a ++ b) ≡ read_digits k b
unfolding read_digits
read_digits-append m k [] b e = ground arith
read_digits-append m k (c ∷ a) b e = ground (arith, read_digits-append (10 * m + (c - 48)) k a b)

read_digit : (k d : ℕ) → d < 10 → read_digits k ((48 + d) ∷ []) ≡ some (10 * k + d)
unfolding read_digits digit
read_digit k d h = ground arith

abbrev ten_pow : ℕ → ℕ
ten_pow zero = 1
ten_pow (suc f) = 10 * ten_pow f

tenth : (fuel n : ℕ) → n < ten_pow (suc fuel) → n / 10 < ten_pow fuel
tenth fuel n h = omega arith

room : (fuel n : ℕ) → n < ten_pow (suc fuel) → ltb n 10 ≡ false → 0 < fuel
room zero n h e = ground arith
room (suc fuel) n h e = omega arith

read_digits-digits :
    (fuel n : ℕ) → n < ten_pow fuel → 0 < fuel → read_digits 0 (digits fuel n) ≡ some n
unfolding digits
read_digits-digits zero n h p = ground arith
read_digits-digits (suc fuel) n h p = elim (Bool-cases (ltb n 10)) [
  | inl e ↦ rw (e) (ground (arith, read_digit 0 n))
  | inr e ↦ rw (e) ground (
    arith,
    read_digits-append 0 (n / 10) (digits fuel (n / 10)) ((48 + n % 10) ∷ [])
        (read_digits-digits fuel (n / 10) (tenth fuel n h) (room fuel n h e)),
    read_digit (n / 10) (n % 10),
  )
]

digits-nonempty : (fuel n : ℕ) → 0 < length (digits (suc fuel) n)
unfolding digits
digits-nonempty fuel n = ground (arith, length-append (digits fuel (n / 10)) ((48 + n % 10) ∷ []))

parse-digits :
    (b : Bytes) (n : ℕ)
    → All Digit b
    → 0 < length b
    → read_digits 0 b ≡ some n
    → n < 2 ^ 63
    → parse_i64 b ≡ some (nonneg n)
unfolding parse_i64 unsigned in_range
parse-digits [] n d l e h = ground arith
parse-digits (c ∷ b) n d l e h = ground (arith, e)

Digit-Free : (b : Bytes) → All Digit b → Free 46 b
Digit-Free [] d = tt
Digit-Free (c ∷ b) d = (λ e. ground arith, Digit-Free b d.1)

module _ (hmac : Bytes → Bytes → Bytes) (base64 : Bytes → Bytes) where
  -- The cookie that `sign` makes for a registered token verifies before its expiry, as that token with that
  -- expiry: the token's name has no dot and is the first of its name.
  pub verify-sign :
      (key : Bytes) (tokens : List TokenEntry) (entry : TokenEntry) (expires now : ℕ)
      → by_name tokens entry.name ≡ some entry
      → Free 46 entry.name
      → expires < 2 ^ 63
      → now < expires
      → verify hmac base64 key tokens (sign hmac base64 key entry (nonneg expires)) now
        ≡ some (entry, nonneg expires)
  unfolding verify sign expired show_i64 bytes_eq
  verify-sign key tokens entry expires now known dotless fits live =
      let stated = digits 19 expires in
      let given = mac hmac base64 key entry.name (nonneg expires) entry.hash in
      let rest' = stated ++ (46 ∷ given) in
      let rest = entry.name ++ (46 ∷ rest') in
      rw
        (
          split_once-append 46 (118 ∷ 49 ∷ []) rest (λ e. ground arith, (λ e. ground arith, tt)),
          split_once-append 46 entry.name rest' dotless,
          split_once-append 46 stated given (Digit-Free stated (digits-Digit 19 expires)),
          parse-digits stated expires (digits-Digit 19 expires) (digits-nonempty 18 expires)
              (read_digits-digits 19 expires (omega arith) (omega arith)) fits,
          known,
          verify,
        )
        (ground (arith, constant_time_eq-same given))
