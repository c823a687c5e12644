-- ===== src/Error.antt =====
-- crates/core/src/error.rs. An underlying error of another crate is its message.
use prospero.Prelude.{String}

pub data CoreError : Type 0 where
  caliband_unreachable : (endpoint source : String) → CoreError
  protocol : String → CoreError
  agent_not_found : String → CoreError
  invalid_state : (op id status : String) → CoreError
  discovery : String → CoreError
  store : String → CoreError
  seq_conflict : CoreError
  workspace_not_found : String → CoreError
  automation_not_found : String → CoreError
  unauthorized : String → CoreError
  conflict : String → CoreError
  provider_misconfigured : String → CoreError
  invalid_config : String → CoreError
  fleet : String → CoreError
  io : String → CoreError
  json : String → CoreError

-- `Result<T>` of the core crate.
pub data Result {ℓ} (A : Type ℓ) : Type ℓ where
  ok : A → Result A
  err : CoreError → Result A

infixl 5 ◌>>=◌
abbrev pub ◌>>=◌ {ℓ κ} : {A : Type ℓ} {B : Type κ} → Result A → (A → Result B) → Result B
ok a >>= f = f a
err e >>= f = err e

-- `unwrap_or`, `unwrap_or_default`.
abbrev pub unwrap_or {ℓ} : {A : Type ℓ} → Result A → A → A
unwrap_or (ok a) d = a
unwrap_or (err e) d = d
