-- ===== src/Provider/Layers.antt =====
-- Which layer a variable of a resolved environment comes from.
use prospero.Prelude.{
  ◌≡◌, refl, ap, ◌∙◌, Option, none, some, List, [], ◌∷◌, String, str_eq, eq_iff, if◌then◌else◌, get,
  insert, get-insert, get-insert_other, arith, Bool-cases, inl, inr, subst,
}
use prospero.Provider.{
  RepoProviderConfig, provider_vars, set_var, referred, set_curated, set_all, resolve_env,
}

-- What `out` has for a variable after it was set.
get-insert_if :
    (k j v : String) (m : List (String × String))
    → get k (insert j v m) ≡ (if str_eq j k then some v else get k m)
get-insert_if k j v m = elim (Bool-cases (str_eq j k)) [
  | inl e ↦
      let p : j ≡ k = ground (arith, eq_iff j k, e) in
      rw e (subst (λ i. get i (insert j v m) ≡ some v) p (get-insert j v m))
  | inr e ↦ rw e (get-insert_other k j v m (λ p. ground (arith, p, e, eq_iff j k)))
]

-- The last entry of a variable in a list, or else what it was.
abbrev pub last_or : String → List (String × String) → Option String → Option String
last_or k [] before = before
last_or k ((j, v) ∷ rest) before = last_or k rest (if str_eq j k then some v else before)

get-set_all :
    (k : String) (es out : List (String × String))
    → get k (set_all es out) ≡ last_or k es (get k out)
unfolding set_all
get-set_all k [] out = refl
get-set_all k ((j, v) ∷ rest) out =
    get-set_all k rest (insert j v out) ∙ ap (last_or k rest) (get-insert_if k j v out)

-- The variable of a provider stands for `k`, and has a value.
abbrev pub names : String → Option String → Option String → Option String → Option String
names k (some var) (some value) before = if str_eq var k then some value else before
names k _ _ before = before

get-set_var :
    (k : String) (var value : Option String) (out : List (String × String))
    → get k (set_var var value out) ≡ names k var value (get k out)
unfolding set_var
get-set_var k (some var) (some value) out = get-insert_if k var value out
get-set_var k (some var) none out = refl
get-set_var k none value out = refl

-- The curated layer over what the layer below has for `k`.
abbrev pub curated :
    RepoProviderConfig
    → (String → Option String)
    → String
    → Option String
    → Option String
    → Option String
curated cfg process_env k none before = before
curated cfg process_env k (some provider) before =
    let (base_var, key_var) = provider_vars provider in
    names k key_var (referred process_env cfg.api_key_from_env) (
      names k base_var cfg.base_url (if str_eq "CALIBAN_PROVIDER" k then some provider else before))

get-set_curated :
    (cfg : RepoProviderConfig) (process_env : String → Option String) (k : String)
    (o : Option String) (out : List (String × String))
    → get k (set_curated cfg process_env o out) ≡ curated cfg process_env k o (get k out)
unfolding set_curated
get-set_curated cfg process_env k none out = refl
get-set_curated cfg process_env k (some provider) out =
    let (base_var, key_var) = provider_vars provider in
    let named = insert "CALIBAN_PROVIDER" provider out in
    get-set_var k key_var (referred process_env cfg.api_key_from_env)
      (set_var base_var cfg.base_url named)
    ∙ ap (names k key_var (referred process_env cfg.api_key_from_env)) (
        get-set_var k base_var cfg.base_url named
        ∙ ap (names k base_var cfg.base_url) (get-insert_if k "CALIBAN_PROVIDER" provider out))

-- A variable of the resolved environment is the last that the repo's raw environment sets; failing
-- that the provider's key, base URL or name where the variable stands for it and it has a value;
-- failing that what the default environment has.
resolve_env_layers :
    (default_env : List (String × String)) (cfg : RepoProviderConfig)
    (process_env : String → Option String) (k : String)
    → get k (resolve_env default_env cfg process_env)
      ≡ last_or k cfg.env (curated cfg process_env k cfg.provider (get k default_env))
unfolding resolve_env
resolve_env_layers default_env cfg process_env k =
    get-set_all k cfg.env (set_curated cfg process_env cfg.provider default_env)
    ∙ ap (last_or k cfg.env) (get-set_curated cfg process_env k cfg.provider default_env)
