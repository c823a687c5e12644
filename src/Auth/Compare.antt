-- ===== src/Auth/Compare.antt =====
-- The comparison that takes the same time wherever two digests differ is equality.
use prospero.Prelude.{
  ℕ, zero, suc, ◌*◌, ◌/◌, ◌<◌, ◌≡◌, ◌↔◌, refl, true, none, some, List, [], ◌∷◌, length, All, find,
  arith, subst,
}
use prospero.Auth.{
  Bytes, xor, or, accumulate, constant_time_eq, TokenEntry, keep_first, scan, authenticate,
  bytes_eq,
}

abbrev pow2 : ℕ → ℕ
pow2 zero = 1
pow2 (suc w) = 2 * pow2 w

xor_bound : (w x y : ℕ) → xor w x y < pow2 w
unfolding xor
xor_bound zero x y = omega arith
xor_bound (suc w) x y = ground (arith, xor_bound w (x / 2) (y / 2))

or_bound : (w x y : ℕ) → or w x y < pow2 w
unfolding or
or_bound zero x y = omega arith
or_bound (suc w) x y = ground (arith, or_bound w (x / 2) (y / 2))

xor_zero : (w x y : ℕ) → x < pow2 w → y < pow2 w → xor w x y ≡ 0 → x ≡ y
unfolding xor
xor_zero zero x y hx hy e = omega arith
xor_zero (suc w) x y hx hy e = ground (arith, xor_zero w (x / 2) (y / 2))

or_zero : (w x y : ℕ) → x < pow2 w → y < pow2 w → or w x y ≡ 0 → (x ≡ 0) × (y ≡ 0)
unfolding or
or_zero zero x y hx hy e = ground arith
or_zero (suc w) x y hx hy e = ground (arith, or_zero w (x / 2) (y / 2))

xor_same : (w x : ℕ) → xor w x x ≡ 0
unfolding xor
xor_same zero x = refl
xor_same (suc w) x = ground (arith, xor_same w (x / 2))

abbrev pub IsBytes : Bytes → Type 0
IsBytes a = All (λ x. x < 256) a

accumulate-zero :
    (diff : ℕ) (a b : Bytes)
    → IsBytes a
    → IsBytes b
    → diff < 256
    → length a ≡ length b
    → accumulate diff a b ≡ 0
    → (diff ≡ 0) × (a ≡ b)
unfolding accumulate
accumulate-zero diff [] [] va vb d l e = (e, refl)
accumulate-zero diff [] (y ∷ b) va vb d l e = ground arith
accumulate-zero diff (x ∷ a) [] va vb d l e = ground arith
accumulate-zero diff (x ∷ a) (y ∷ b) va vb d l e =
    let (o, rest) =
      accumulate-zero (or 8 diff (xor 8 x y)) a b va.1 vb.1 (or_bound 8 diff (xor 8 x y))
        (ground arith) e in
    let (z, same) = or_zero 8 diff (xor 8 x y) d (xor_bound 8 x y) o in
    (z, grind (arith, xor_zero 8 x y va.0 vb.0 same, rest))

accumulate-same : (a : Bytes) → accumulate 0 a a ≡ 0
unfolding accumulate or
accumulate-same [] = refl
accumulate-same (x ∷ a) = rw (xor_same 8 x) (accumulate-same a)

pub constant_time_eq-same : (a : Bytes) → constant_time_eq a a ≡ true
unfolding constant_time_eq
constant_time_eq-same a = ground (arith, accumulate-same a)

-- On byte strings, `constant_time_eq` holds exactly of equal ones.
constant_time_eq_iff :
    (a b : Bytes) → IsBytes a → IsBytes b → (constant_time_eq a b ≡ true) ↔ (a ≡ b)
unfolding constant_time_eq
constant_time_eq_iff a b va vb = (
  λ h. (accumulate-zero 0 a b va vb (omega arith) (ground arith) (ground arith)).1,
  λ e. subst (λ c. constant_time_eq a c ≡ true) e (constant_time_eq-same a),
)

pub bytes_eq_iff : (a b : Bytes) → (bytes_eq a b ≡ true) ↔ (a ≡ b)
unfolding bytes_eq
bytes_eq_iff [] [] = (λ h. refl, λ h. refl)
bytes_eq_iff [] (y ∷ b) = (λ h. ground arith, λ h. ground arith)
bytes_eq_iff (x ∷ a) [] = (λ h. ground arith, λ h. ground arith)
bytes_eq_iff (x ∷ a) (y ∷ b) =
    (λ h. grind (arith, (bytes_eq_iff a b).0), λ h. ground (arith, bytes_eq_iff a b))

-- The two comparisons agree.
agree : (a b : Bytes) → IsBytes a → IsBytes b → constant_time_eq a b ≡ bytes_eq a b
agree a b va vb = ground (arith, constant_time_eq_iff a b va vb, bytes_eq_iff a b)

scan-find :
    (presented : Bytes) (entries : List TokenEntry)
    → IsBytes presented
    → All (λ e. IsBytes e.hash) entries
    → (scan presented entries none ≡ find (λ e. bytes_eq e.hash presented) entries)
      × ((f : TokenEntry) → scan presented entries (some f) ≡ some f)
unfolding scan keep_first
scan-find presented [] vp ve = (refl, λ f. refl)
scan-find presented (e ∷ rest) vp ve =
    let later = scan-find presented rest vp ve.1 in
    let same = agree e.hash presented ve.0 vp in
    (rw (same) (ground (arith, later.0, later.1 e)), λ f. ground (arith, later.1 f))

-- `authenticate` finds the first entry whose digest is the token's, and none when there is no such entry.
authenticate-find :
    (sha256 : Bytes → Bytes) (entries : List TokenEntry) (token : Bytes)
    → IsBytes (sha256 token)
    → All (λ e. IsBytes e.hash) entries
    → authenticate sha256 entries token ≡ find (λ e. bytes_eq e.hash (sha256 token)) entries
unfolding authenticate
authenticate-find sha256 entries token vt ve = (scan-find (sha256 token) entries vt ve).0
