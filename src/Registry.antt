-- ===== src/Registry.antt =====
-- crates/core/src/registry.rs: the workspaces that prospero manages. A path is its text, and two are
-- compared as PathBufs are, by their components; `Config` is the provider's configuration, and `render` the wording of a conflict.
pub mod Invariant
use prospero.Prelude.{
  ℕ, Bool, true, false, not, Option, none, some, List, [], ◌∷◌, ◌++◌, String, str_eq, eq_iff, ◌==◌,
  ◌&&◌, ◌||◌, ◌≡◌, ◌≢◌, ◌↔◌, refl, length, filter, find, any, all, All, arith, if◌then◌else◌,
}
use prospero.Automation.Template.{split_all}
use prospero.Error.{CoreError, Result, ok, err, conflict}

-- `.` counts only at the start of a relative path, and an empty component, as a further `/` makes one, never.
components : (is_first : Bool) → List String → List String
components is_first [] = []
components is_first (c ∷ rest) =
    let others = components false rest in
    if str_eq c "" || (str_eq c "." && not is_first) then others else c ∷ others

is_rooted : List String → Bool
is_rooted [] = false
is_rooted (c ∷ []) = false
is_rooted (c ∷ d ∷ rest) = str_eq c ""

same_components : List String → List String → Bool
same_components [] [] = true
same_components [] (d ∷ ds) = false
same_components (c ∷ cs) [] = false
same_components (c ∷ cs) (d ∷ ds) = str_eq c d && same_components cs ds

same_root : Bool → Bool → Bool
same_root true r = r
same_root false r = not r

-- `==` of two paths: both are absolute or both relative, and their components are the same.
unfoldable pub same_path : String → String → Bool
unfolding components is_rooted same_components same_root
same_path p q =
    let cs = split_all "/" p in
    let ds = split_all "/" q in
    same_root (is_rooted cs) (is_rooted ds)
    && same_components (components (not (is_rooted cs)) cs) (components (not (is_rooted ds)) ds)

pub record RegisteredWorkspace (Config : Type 0) : Type 0 where
  pub name : String
  pub root : String
  pub config : Config

module _ {Config : Type 0} where
  unfoldable pub get :
      List (RegisteredWorkspace Config) → String → Option (RegisteredWorkspace Config)
  get ws name = find (λ r. str_eq r.name name) ws

  -- The outcome of `add`, given who has the name and who has the root.
  unfoldable pub added :
      (default : Config) (render : String → String → String)
      → List (RegisteredWorkspace Config)
      → String
      → String
      → Option (RegisteredWorkspace Config)
      → Option (RegisteredWorkspace Config)
      → List (RegisteredWorkspace Config) × Result (Unit {0})
  added default render ws name root (some existing) taken = (
    ws,
    if same_path existing.root root then ok tt else err (conflict (render name existing.root)),
  )
  added default render ws name root none (some other) =
      (ws, err (conflict (render other.name root)))
  added default render ws name root none none =
      (ws ++ (record { name = name; root = root; config = default } ∷ []), ok tt)

  unfoldable pub add :
      (default : Config) (render : String → String → String)
      → List (RegisteredWorkspace Config)
      → String
      → String
      → List (RegisteredWorkspace Config) × Result (Unit {0})
  unfolding added
  add default render ws name root =
      added default render ws name root (get ws name) (find (λ r. same_path r.root root) ws)

  unfoldable pub remove :
      List (RegisteredWorkspace Config) → String → List (RegisteredWorkspace Config) × Bool
  remove ws name =
      let kept = filter (λ r. not (str_eq r.name name)) ws in (kept, not (length kept == length ws))

  -- The first entry of the name takes the configuration.
  unfoldable pub set_config :
      List (RegisteredWorkspace Config) → String → Config → List (RegisteredWorkspace Config) × Bool
  set_config [] name config = ([], false)
  set_config (r ∷ rest) name config =
      let (rest', found) = set_config rest name config in
      if str_eq r.name name then (record r { config = config } ∷ rest, true) else (r ∷ rest', found)

  -- Two entries share neither a name nor a root.
  abbrev pub Apart : RegisteredWorkspace Config → RegisteredWorkspace Config → Type 0
  Apart r s = (r.name ≢ s.name) × (same_path r.root s.root ≡ false)

  abbrev pub IsValid : List (RegisteredWorkspace Config) → Type 0
  IsValid [] = Unit
  IsValid (r ∷ rest) = All (Apart r) rest × IsValid rest
