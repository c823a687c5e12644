-- ===== src/Fleet/Workspaces/Mirror.antt =====
-- That a refresh makes the snapshot's workspaces those of the shared config store.
use prospero.Prelude.{
  ◌≡◌, refl, ap, subst, ◌∙◌, Bool, true, false, ◌&&◌, ◌||◌, some, List, [], ◌∷◌, ◌++◌, String,
  str_eq, eq_iff, if◌then◌else◌, if_cases, if_lem, any, filter, arith, Bool-cases, inl, inr,
}
use prospero.Error.{ok}
use prospero.Registry.{RegisteredWorkspace}
use prospero.Fleet.Manager.{Source, Workspace, Manager, find_workspace}
use prospero.Fleet.Workspaces.{
  fresh, has_workspace, push_missing, push_registered, refresh_registry_from_store,
}

-- The name is registered.
abbrev pub is_registered : {Config : Type 0} → String → List (RegisteredWorkspace Config) → Bool
is_registered name ds = any (λ d. str_eq d.name name) ds

or_false : (b : Bool) → b ≡ (b || false)
or_false true = refl
or_false false = refl

module _ {Config : Type 0} (discover : String → List Source) (name : String) where
  has-append :
      (ws vs : List (Workspace Config))
      → has_workspace name (ws ++ vs) ≡ (has_workspace name ws || has_workspace name vs)
  unfolding has_workspace
  has-append [] vs = refl
  has-append (w ∷ ws) vs = ground (arith, has-append ws vs)

  has-push_missing :
      (ws : List (Workspace Config)) (r : RegisteredWorkspace Config)
      → has_workspace name (push_missing discover ws r)
        ≡ (has_workspace name ws || str_eq r.name name)
  unfolding push_missing has_workspace fresh
  has-push_missing ws r =
      if_cases (λ vs. has_workspace name vs ≡ (has_workspace name ws || str_eq r.name name))
        (has_workspace r.name ws) {x = ws} {y = ws ++ (fresh discover r ∷ [])}
        (λ e. elim (Bool-cases (str_eq r.name name)) [
          | inl same ↦
              let known : has_workspace name ws ≡ true =
                subst (λ n. has_workspace n ws ≡ true) ((eq_iff r.name name).0 same) e in
              ground (arith, known)
          | inr other ↦ rw other (or_false (has_workspace name ws))
        ])
        (λ e. has-append ws (fresh discover r ∷ []) ∙ ground arith)

  has-push_registered :
      (ws : List (Workspace Config)) (ds : List (RegisteredWorkspace Config))
      → has_workspace name (push_registered discover ws ds)
        ≡ (has_workspace name ws || is_registered name ds)
  unfolding push_registered
  has-push_registered ws [] = or_false (has_workspace name ws)
  has-push_registered ws (r ∷ rest) =
      ground (arith, has-push_registered (push_missing discover ws r) rest, has-push_missing ws r)

  abbrev keep : List (RegisteredWorkspace Config) → Workspace Config → Bool
  keep durable w = is_registered w.name durable

  has-kept :
      (durable : List (RegisteredWorkspace Config)) (ws : List (Workspace Config))
      → has_workspace name (filter (keep durable) ws)
        ≡ (has_workspace name ws && is_registered name durable)
  unfolding has_workspace
  has-kept durable [] = refl
  has-kept durable (w ∷ ws) =
      let rec = has-kept durable ws in
      if_cases
        (λ vs. has_workspace name vs ≡ (has_workspace name (w ∷ ws) && is_registered name durable))
        (keep durable w) {x = w ∷ filter (keep durable) ws} {y = filter (keep durable) ws}
        (λ e. elim (Bool-cases (str_eq w.name name)) [
          | inl same ↦
              let known : is_registered name durable ≡ true =
                subst (λ n. is_registered n durable ≡ true) ((eq_iff w.name name).0 same) e in
              rw (same, known) refl
          | inr other ↦ rw other rec
        ])
        (λ e. elim (Bool-cases (str_eq w.name name)) [
          | inl same ↦
              let unknown : is_registered name durable ≡ false =
                subst (λ n. is_registered n durable ≡ false) ((eq_iff w.name name).0 same) e in
              ground (arith, rec, unknown)
          | inr other ↦ rw other rec
        ])

  find-kept :
      (durable : List (RegisteredWorkspace Config)) (ws : List (Workspace Config))
      → is_registered name durable ≡ true
      → find_workspace name (filter (keep durable) ws) ≡ find_workspace name ws
  unfolding find_workspace
  find-kept durable [] h = refl
  find-kept durable (w ∷ ws) h =
      if_cases (λ vs. find_workspace name vs ≡ find_workspace name (w ∷ ws)) (keep durable w)
        (λ e. ap (λ o. if str_eq w.name name then some w else o) (find-kept durable ws h))
        (λ e. elim (Bool-cases (str_eq w.name name)) [
          | inl same ↦ absurd (
              ground (
                arith,
                h,
                subst (λ n. is_registered n durable ≡ false) ((eq_iff w.name name).0 same) e,
              ))
          | inr other ↦ rw other (find-kept durable ws h)
        ])

  find-append :
      (ws vs : List (Workspace Config)) (w : Workspace Config)
      → find_workspace name ws ≡ some w
      → find_workspace name (ws ++ vs) ≡ some w
  unfolding find_workspace
  find-append [] vs w h = absurd (ground (arith, h))
  find-append (v ∷ ws) vs w h = ground (arith, h, find-append ws vs w)

  find-push_registered :
      (ds : List (RegisteredWorkspace Config)) (ws : List (Workspace Config)) (w : Workspace Config)
      → find_workspace name ws ≡ some w
      → find_workspace name (push_registered discover ws ds) ≡ some w
  unfolding push_registered push_missing
  find-push_registered [] ws w h = h
  find-push_registered (r ∷ rest) ws w h = find-push_registered rest _ w (
      if_lem (λ vs. find_workspace name vs ≡ some w) (has_workspace r.name ws) h
        (find-append ws (fresh discover r ∷ []) w h))

-- A refresh that can read the store makes a workspace stand in the snapshot exactly if the store has
-- its name, and leaves one that stood there already, and is still stored, as it was.
refresh_mirrors :
    {V Config : Type 0} (discover : String → List Source) (m : Manager V Config)
    (durable : List (RegisteredWorkspace Config)) (name : String)
    → let m' = refresh_registry_from_store discover m (ok durable) in
      (m'.registry ≡ durable)
      × (has_workspace name m'.snapshot.workspaces ≡ is_registered name durable)
      × ((w : Workspace Config)
          → is_registered name durable ≡ true
          → find_workspace name m.snapshot.workspaces ≡ some w
          → find_workspace name m'.snapshot.workspaces ≡ some w)
unfolding refresh_registry_from_store
refresh_mirrors discover m durable name =
    let ws = m.snapshot.workspaces in
    let kept = filter (λ (w : Workspace _). is_registered w.name durable) ws in
    (
      refl,
      ground (
        arith,
        has-push_registered discover name kept durable,
        has-kept discover name durable ws,
      ),
      λ w r h.
          find-push_registered discover name durable kept w
            (find-kept discover name durable ws r ∙ h),
    )
