-- ===== src/Automation/Engine/Signature.antt =====
-- What `verify_webhook_signature` of crates/core/src/automation.rs takes for a signature.
use prospero.Prelude.{
  ◌≡◌, ◌↔◌, refl, ap, subst, true, Option, none, some, String, arith, trim, strip_prefix,
}
use prospero.Auth.{Bytes}
use prospero.Auth.Compare.{bytes_eq_iff}
use prospero.Automation.Engine.{Rules, digest_is, signed_with, verify_webhook_signature}

-- The header has the hex digits, after `sha256=`, of the HMAC of the body under the key.
abbrev pub IsSigned : Rules → (secret body : String) → Option String → Type 0
IsSigned rules secret body signature =
    (header : String) × (digits : String) × (signature ≡ some header)
    × (strip_prefix "sha256=" (trim header) ≡ some digits)
    × (rules.hex digits ≡ some (rules.hmac secret body))

digest_is_lem :
    (digest : Bytes) (o : Option Bytes) → (digest_is digest o ≡ true) ↔ (o ≡ some digest)
unfolding digest_is
digest_is_lem digest none = (λ h. ground arith, λ h. ground arith)
digest_is_lem digest (some provided) = (
  λ h. ap some ((bytes_eq_iff provided digest).0 h),
  λ h. (bytes_eq_iff provided digest).1 (ground (arith, h)),
)

signed_with_lem :
    (rules : Rules) (secret body : String) (o : Option String)
    → (signed_with rules secret body o ≡ true)
      ↔ ((digits : String) × (o ≡ some digits) × (rules.hex digits ≡ some (rules.hmac secret body)))
unfolding signed_with
signed_with_lem rules secret body none = (λ h. ground arith, λ (digits, e, h). ground (arith, e))
signed_with_lem rules secret body (some digits) =
    let (to, from) = digest_is_lem (rules.hmac secret body) (rules.hex digits) in
    (
      λ h. (digits, refl, to h),
      λ (digits', e, h).
          let same : digits' ≡ digits = ground (arith, e) in
          from (subst (λ d. rules.hex d ≡ some (rules.hmac secret body)) same h),
    )

pub IsSigned-iff :
    (rules : Rules) (secret body : String) (signature : Option String)
    → (verify_webhook_signature rules secret body signature ≡ true)
      ↔ IsSigned rules secret body signature
unfolding verify_webhook_signature
IsSigned-iff rules secret body none =
    (λ h. ground arith, λ (header, digits, e, stripped, mac). ground (arith, e))
IsSigned-iff rules secret body (some header) =
    let (to, from) = signed_with_lem rules secret body (strip_prefix "sha256=" (trim header)) in
    (
      λ h. let (digits, stripped, mac) = to h in (header, digits, refl, stripped, mac),
      λ (header', digits, e, stripped, mac).
          let same : header' ≡ header = ground (arith, e) in
          from
            (digits, subst (λ x. strip_prefix "sha256=" (trim x) ≡ some digits) same stripped, mac),
    )
