-- ===== src/Provider.antt =====
-- crates/core/src/provider_env.rs: the environment that a repo's caliband is started with, and the
-- checks of a provider's configuration. The wording of a refusal is not modelled beyond what it names.
pub mod Layers
use prospero.Prelude.{
  ◌≡◌, Bool, true, false, not, Option, none, some, List, [], ◌∷◌, String, str_eq, if◌then◌else◌,
  is_empty, get, insert,
}

-- `RepoProviderConfig` of crates/types/src/model.rs.
pub record RepoProviderConfig : Type 0 where
  pub provider : Option String
  pub base_url : Option String
  pub api_key_from_env : Option String
  pub env : List (String × String)

-- The variables of a provider: for its base URL, and for its key.
unfoldable pub provider_vars : String → Option String × Option String
provider_vars provider =
    if str_eq provider "anthropic"
    then (some "ANTHROPIC_BASE_URL", some "ANTHROPIC_API_KEY")
    else (if str_eq provider "openai"
        then (some "OPENAI_BASE_URL", some "OPENAI_API_KEY")
        else (if str_eq provider "google"
            then (some "GEMINI_BASE_URL", some "GEMINI_API_KEY")
            else (none, none)))

-- A variable is set when there is both a variable and a value for it.
unfoldable pub set_var :
    Option String → Option String → List (String × String) → List (String × String)
set_var (some var) (some value) out = insert var value out
set_var _ _ out = out

-- The value that a name refers to in prosperod's own environment.
unfoldable pub referred : (String → Option String) → Option String → Option String
referred process_env none = none
referred process_env (some name) = process_env name

-- The curated fields; without a provider they count for nothing.
unfoldable pub set_curated :
    RepoProviderConfig
    → (String → Option String)
    → Option String
    → List (String × String)
    → List (String × String)
unfolding set_var referred
set_curated cfg process_env none out = out
set_curated cfg process_env (some provider) out =
    let (base_var, key_var) = provider_vars provider in
    set_var key_var (referred process_env cfg.api_key_from_env)
      (set_var base_var cfg.base_url (insert "CALIBAN_PROVIDER" provider out))

unfoldable pub set_all : List (String × String) → List (String × String) → List (String × String)
set_all [] out = out
set_all ((k, v) ∷ rest) out = set_all rest (insert k v out)

unfoldable pub resolve_env :
    (default_env : List (String × String))
    → RepoProviderConfig
    → (String → Option String)
    → List (String × String)
resolve_env default_env cfg process_env =
    set_all cfg.env (set_curated cfg process_env cfg.provider default_env)

-- Why a configuration is refused.
pub data Misconfigured : Type 0 where
  reference_unset : (provider key_var name : String) → Misconfigured
  key_missing : (provider key_var : String) → Misconfigured
  key_ignored : (provider : String) → Misconfigured

is_some {ℓ} : {A : Type ℓ} → Option A → Bool
is_some none = false
is_some (some a) = true

has_value : Option String → Bool
has_value none = false
has_value (some v) = not (is_empty v)

missing : String → String → Option String → Misconfigured
missing provider key_var none = key_missing provider key_var
missing provider key_var (some name) = reference_unset provider key_var name

-- Nothing is wrong, or why the provider's key is wanting.
unfoldable pub check_key :
    RepoProviderConfig → List (String × String) → String → Option String → Option Misconfigured
unfolding is_some has_value missing
check_key cfg resolved provider none = none
check_key cfg resolved provider (some key_var) =
    if is_some cfg.base_url
    then none
    else (if has_value (get key_var resolved)
        then none
        else some (missing provider key_var cfg.api_key_from_env))

unfoldable pub validate_provider_env :
    RepoProviderConfig → List (String × String) → Option Misconfigured
validate_provider_env cfg resolved = elim cfg.provider [
  | none ↦ none
  | some provider ↦ check_key cfg resolved provider (provider_vars provider).1
]

key_unused : String → Option String → Option String → Option Misconfigured
key_unused provider (some name) none = some (key_ignored provider)
key_unused provider _ _ = none

unfoldable pub validate_provider_config : RepoProviderConfig → Option Misconfigured
unfolding key_unused
validate_provider_config cfg = elim cfg.provider [
  | none ↦ none
  | some provider ↦ key_unused provider cfg.api_key_from_env (provider_vars provider).1
]
