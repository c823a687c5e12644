-- ===== src/Registry/Invariant.antt =====
-- The names and the roots of a registry stay distinct, and its operations answer `get` as they should.
use prospero.Prelude.{
  Bool, true, false, not, Option, none, some, List, [], ◌∷◌, ◌++◌, String, str_eq, eq_iff, ◌==◌,
  ◌≡◌, ◌≢◌, refl, length, filter, find, All, arith, Bool-cases, inl, inr, length-filter-le,
}
use prospero.Registry.{
  same_path, RegisteredWorkspace, get, added, add, remove, set_config, Apart, IsValid,
}

module _ {Config : Type 0} where
  All-append :
      (P : RegisteredWorkspace Config → Type 0) (ws : List (RegisteredWorkspace Config))
      (w : RegisteredWorkspace Config)
      → All P ws
      → P w
      → All P (ws ++ (w ∷ []))
  All-append P [] w a p = (p, tt)
  All-append P (v ∷ rest) w a p = (a.0, All-append P rest w a.1 p)

  -- No entry has the name, and none has the root.
  append-IsValid :
      (ws : List (RegisteredWorkspace Config)) (w : RegisteredWorkspace Config)
      → find (λ r. str_eq r.name w.name) ws ≡ none
      → find (λ r. same_path r.root w.root) ws ≡ none
      → IsValid ws
      → IsValid (ws ++ (w ∷ []))
  append-IsValid [] w free empty v = (tt, tt)
  append-IsValid (r ∷ rest) w free empty v = (
    All-append (Apart r) rest w v.0 (ground (arith, eq_iff r.name w.name), ground arith),
    append-IsValid rest w (ground arith) (ground arith) v.1,
  )

  added-IsValid :
      (default : Config) (render : String → String → String)
      (ws : List (RegisteredWorkspace Config)) (name root : String)
      (existing other : Option (RegisteredWorkspace Config))
      → find (λ r. str_eq r.name name) ws ≡ existing
      → find (λ r. same_path r.root root) ws ≡ other
      → IsValid ws
      → IsValid (added default render ws name root existing other).0
  unfolding added
  added-IsValid default render ws name root (some e) other f g v = v
  added-IsValid default render ws name root none (some o) f g v = v
  added-IsValid default render ws name root none none f g v =
      append-IsValid ws (record { name = name; root = root; config = default }) f g v

  add-IsValid :
      (default : Config) (render : String → String → String)
      (ws : List (RegisteredWorkspace Config)) (name root : String)
      → IsValid ws
      → IsValid (add default render ws name root).0
  unfolding add get
  add-IsValid default render ws name root v =
      added-IsValid default render ws name root (get ws name) (find (λ r. same_path r.root root) ws)
        refl refl v

  All-filter :
      (P : RegisteredWorkspace Config → Type 0) (p : RegisteredWorkspace Config → Bool)
      (ws : List (RegisteredWorkspace Config))
      → All P ws
      → All P (filter p ws)
  All-filter P p [] a = tt
  All-filter P p (w ∷ rest) a = elim (Bool-cases (p w)) [
    | inl e ↦ rw (e) (a.0, All-filter P p rest a.1)
    | inr e ↦ rw (e) (All-filter P p rest a.1)
  ]

  filter-IsValid :
      (p : RegisteredWorkspace Config → Bool) (ws : List (RegisteredWorkspace Config))
      → IsValid ws
      → IsValid (filter p ws)
  filter-IsValid p [] v = tt
  filter-IsValid p (w ∷ rest) v = elim (Bool-cases (p w)) [
    | inl e ↦ rw (e) (All-filter (Apart w) p rest v.0, filter-IsValid p rest v.1)
    | inr e ↦ rw (e) (filter-IsValid p rest v.1)
  ]

  remove-IsValid :
      (ws : List (RegisteredWorkspace Config)) (name : String)
      → IsValid ws
      → IsValid (remove ws name).0
  unfolding remove
  remove-IsValid ws name v = filter-IsValid (λ r. not (str_eq r.name name)) ws v

  set_config-Apart :
      (w : RegisteredWorkspace Config) (ws : List (RegisteredWorkspace Config)) (name : String)
      (config : Config)
      → All (Apart w) ws
      → All (Apart w) (set_config ws name config).0
  unfolding set_config
  set_config-Apart w [] name config a = tt
  set_config-Apart w (r ∷ rest) name config a = elim (Bool-cases (str_eq r.name name)) [
    | inl e ↦ rw (e) (a.0, a.1)
    | inr e ↦ rw (e) (a.0, set_config-Apart w rest name config a.1)
  ]

  set_config-IsValid :
      (ws : List (RegisteredWorkspace Config)) (name : String) (config : Config)
      → IsValid ws
      → IsValid (set_config ws name config).0
  unfolding set_config
  set_config-IsValid [] name config v = tt
  set_config-IsValid (r ∷ rest) name config v = elim (Bool-cases (str_eq r.name name)) [
    | inl e ↦ rw (e) v
    | inr e ↦
        rw (e) (set_config-Apart r rest name config v.0, set_config-IsValid rest name config v.1)
  ]

-- An edit of the registry.
pub data Edit (Config : Type 0) : Type 0 where
  adding : (name root : String) → Edit Config
  removing : (name : String) → Edit Config
  setting : (name : String) (config : Config) → Edit Config

module _ {Config : Type 0} (default : Config) (render : String → String → String) where
  unfoldable pub edit :
      List (Edit Config) → List (RegisteredWorkspace Config) → List (RegisteredWorkspace Config)
  edit [] ws = ws
  edit (adding name root ∷ rest) ws = edit rest (add default render ws name root).0
  edit (removing name ∷ rest) ws = edit rest (remove ws name).0
  edit (setting name config ∷ rest) ws = edit rest (set_config ws name config).0

  -- Whatever edits a registry with distinct names and distinct roots goes through, refused ones
  -- included, its names stay distinct and its roots stay distinct.
  edits-IsValid :
      (edits : List (Edit Config)) (ws : List (RegisteredWorkspace Config))
      → IsValid ws
      → IsValid (edit edits ws)
  unfolding edit
  edits-IsValid [] ws v = v
  edits-IsValid (adding name root ∷ rest) ws v =
      edits-IsValid rest (add default render ws name root).0
        (add-IsValid default render ws name root v)
  edits-IsValid (removing name ∷ rest) ws v =
      edits-IsValid rest (remove ws name).0 (remove-IsValid ws name v)
  edits-IsValid (setting name config ∷ rest) ws v =
      edits-IsValid rest (set_config ws name config).0 (set_config-IsValid ws name config v)

module _ {Config : Type 0} where
  find-append :
      (p : RegisteredWorkspace Config → Bool) (ws : List (RegisteredWorkspace Config))
      (w : RegisteredWorkspace Config)
      → find p ws ≡ none
      → p w ≡ true
      → find p (ws ++ (w ∷ [])) ≡ some w
  find-append p [] w f h = ground arith
  find-append p (v ∷ rest) w f h = ground (arith, find-append p rest w)

  find-filter_other :
      (name other : String) (ws : List (RegisteredWorkspace Config))
      → name ≢ other
      → get (filter (λ r. not (str_eq r.name name)) ws) other ≡ get ws other
  unfolding get
  find-filter_other name other [] d = refl
  find-filter_other name other (w ∷ rest) d =
      ground (arith, eq_iff w.name name, eq_iff w.name other, find-filter_other name other rest d)

  removed-get :
      (name : String) (ws : List (RegisteredWorkspace Config))
      → get (filter (λ r. not (str_eq r.name name)) ws) name ≡ none
  unfolding get
  removed-get name [] = refl
  removed-get name (w ∷ rest) = ground (arith, removed-get name rest)

  removed-length :
      (name : String) (ws : List (RegisteredWorkspace Config))
      → not (length (filter (λ r. not (str_eq r.name name)) ws) == length ws)
        ≡ elim (get ws name) [ none ↦ false | some w ↦ true ]
  unfolding get
  removed-length name [] = refl
  removed-length name (w ∷ rest) =
      ground
        (arith, length-filter-le (λ r. not (str_eq r.name name)) rest, removed-length name rest)

  -- `remove` says whether the name was registered; afterwards it is not, and every other name reads as
  -- before.
  remove-get :
      (ws : List (RegisteredWorkspace Config)) (name other : String)
      → name ≢ other
      → ((remove ws name).1 ≡ elim (get ws name) [ none ↦ false | some w ↦ true ])
        × (get (remove ws name).0 name ≡ none)
        × (get (remove ws name).0 other ≡ get ws other)
  unfolding remove
  remove-get ws name other d =
      (removed-length name ws, removed-get name ws, find-filter_other name other ws d)
