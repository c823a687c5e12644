-- ===== src/Auth/Access/Admission.antt =====
-- Who gets through the middleware, and the least scope that a change of the fleet needs.
use prospero.Prelude.{
  ℕ, ◌≤◌, ◌≡◌, ◌↔◌, ◌⊎◌, inl, inr, str_eq, eq_iff, Bool-cases, subst, refl, sym, ap, ◌∙◌, Bool,
  true, false, not, ◌&&◌, Option, none, some, List, String, arith, if◌then◌else◌,
}
use prospero.Auth.{authenticate, Bytes, Scope, read, operate, admin, rank, TokenEntry}
use prospero.Auth.Session.{verify, I64}
use prospero.Auth.Access.{
  bad_request, Headers, Via, bearer, cookie, same_host, by_bearer, by_cookie, seconds, credential,
  Access, open_route, requires, required_access, is_safe, is_cookie, Principal, Request, AuthState,
  runs, same_origin, resolve_principal, admit, gate, is_enabled, middleware,
}

-- The arm that names `read` is the third.
read_arm :
    (a b safe c d f : Bool)
    → (if a
        then open_route
        else (if b
            then open_route
            else (if safe && c
                then requires read
                else (if d
                    then requires operate
                    else (if f then requires operate else requires admin)))))
      ≡ requires read
    → safe ≡ true
read_arm a b true c d f e = refl
read_arm a b false c d f e = ground arith

-- A request that changes something, on a route that is not open, needs `operate` at least.
mutation_scope :
    (method route : String) (s : Scope)
    → is_safe method ≡ false
    → required_access method route ≡ requires s
    → rank operate ≤ rank s
unfolding required_access rank is_safe
mutation_scope method route read unsafe e = ground (arith, read_arm _ _ (is_safe method) _ _ _ e)
mutation_scope method route operate unsafe e = omega arith
mutation_scope method route admin unsafe e = omega arith

abbrev IsCookie : Via → Type 0
IsCookie cookie = Unit
IsCookie bearer = ⊥

-- The browser says that the request comes from the origin itself, or, where it says nothing, the origin's
-- host is the one that the request goes to.
abbrev pub ComesFromHere : Headers → Type 0
ComesFromHere h =
    (h.sec_fetch_site ≡ some "same-origin")
    ⊎ ((h.sec_fetch_site ≡ none)
        × ((host : String) × (h.origin_host ≡ some host) × (h.host ≡ some host)))

-- The caller may make the request: its scope suffices, and with a cookie it only reads, or comes from the
-- origin itself.
abbrev pub Admissible : Scope → Request → Scope → Via → Type 0
Admissible need req scope via =
    (rank need ≤ rank scope)
    × ((via ≡ bearer) ⊎ (req.method ≡ "GET") ⊎ (req.method ≡ "HEAD") ⊎ ComesFromHere req.headers)

same_host_iff :
    (o h : Option String)
    → (same_host o h ≡ true) ↔ ((host : String) × (o ≡ some host) × (h ≡ some host))
unfolding same_host
same_host_iff none h = (λ e. absurd (ground (arith, e)), λ (x, e, k). ground (arith, e))
same_host_iff (some o) none = (λ e. absurd (ground (arith, e)), λ (x, e, k). ground (arith, k))
same_host_iff (some o) (some h) = (
  λ e. (o, refl, ap some (ground (arith, eq_iff o h, e))),
  λ (x, e, k). ground (arith, eq_iff o h, e, k),
)

site_iff :
    (site origin host : Option String)
    → (elim site [ some x ↦ str_eq x "same-origin" | none ↦ same_host origin host ] ≡ true) ↔ (
        (site ≡ some "same-origin")
        ⊎ ((site ≡ none) × ((x : String) × (origin ≡ some x) × (host ≡ some x))))
site_iff none origin host = (
  λ e. inr (refl, (same_host_iff origin host).0 e),
  λ c. elim c [ inl e ↦ absurd (ground (arith, e)) | inr (e, k) ↦ (same_host_iff origin host).1 k ],
)
site_iff (some x) origin host = (
  λ e. inl (ap some ((eq_iff x "same-origin").0 e)),
  λ c. elim c [
    | inl e ↦ ground (arith, eq_iff x "same-origin", e)
    | inr (e, k) ↦ absurd (ground (arith, e))
  ],
)

same_origin_iff : (h : Headers) → (same_origin h ≡ true) ↔ ComesFromHere h
unfolding same_origin
same_origin_iff h = site_iff h.sec_fetch_site h.origin_host h.host

not_bearer : {A : Type 0} → cookie ≡ bearer → A
not_bearer e = absurd (subst IsCookie e tt)

-- The guard against forged requests lets the caller pass.
passes :
    (via : Via) (method : String) (h : Headers)
    → ((is_cookie via && (not (is_safe method) && not (same_origin h))) ≡ false)
      ↔ ((via ≡ bearer) ⊎ (method ≡ "GET") ⊎ (method ≡ "HEAD") ⊎ ComesFromHere h)
unfolding is_cookie is_safe
passes bearer method h = (λ e. inl refl, λ c. refl)
passes cookie method h = (
  λ e. elim (Bool-cases (str_eq method "GET")) [
    | inl g ↦ inr (inl ((eq_iff method "GET").0 g))
    | inr g ↦ elim (Bool-cases (str_eq method "HEAD")) [
      | inl k ↦ inr (inr (inl ((eq_iff method "HEAD").0 k)))
      | inr k ↦ inr (inr (inr ((same_origin_iff h).0 (ground (arith, e, g, k)))))
    ]
  ],
  λ c. elim c [
    | inl e ↦ not_bearer e
    | inr (inl e) ↦ ground (arith, eq_iff method "GET", e)
    | inr (inr (inl e)) ↦ ground (arith, eq_iff method "HEAD", e)
    | inr (inr (inr e)) ↦ ground (arith, (same_origin_iff h).1 e)
  ],
)

bearer_named :
    (o : Option TokenEntry) (p : Principal)
    → by_bearer o ≡ some p
    → (e : TokenEntry) × (o ≡ some e)
      × ((p.token_name ≡ e.name) × (p.scope ≡ e.scope) × (p.via ≡ bearer))
unfolding by_bearer
bearer_named none p h = absurd (ground (arith, h))
bearer_named (some e) p h = (e, refl, (ground (arith, h), ground (arith, h), ground (arith, h)))

cookie_named :
    (o : Option (TokenEntry × I64)) (p : Principal)
    → by_cookie o ≡ some p
    → (e : TokenEntry) × (expires : I64) × (o ≡ some (e, expires))
      × ((p.token_name ≡ e.name) × (p.scope ≡ e.scope) × (p.via ≡ cookie))
unfolding by_cookie
cookie_named none p h = absurd (ground (arith, h))
cookie_named (some (e, expires)) p h =
    (e, expires, refl, (ground (arith, h), ground (arith, h), ground (arith, h)))

module _ (sha256 : Bytes → Bytes) (hmac : Bytes → Bytes → Bytes) (base64 : Bytes → Bytes) where
  -- The request carries the bearer token of an entry, or else no bearer token and a cookie of one.
  abbrev pub Presents : Bytes → List TokenEntry → Headers → (now : ℕ) → TokenEntry → Via → Type 0
  Presents key tokens h now e bearer =
      (token : Bytes) × (h.bearer_token ≡ some token) × (authenticate sha256 tokens token ≡ some e)
  Presents key tokens h now e cookie =
      (value : Bytes) × (expires : I64) × (h.bearer_token ≡ none)
      × (h.cookie_value ≡ some value)
      × (verify hmac base64 key tokens value now ≡ some (e, expires))

  -- The principal is that entry's.
  abbrev Names : Principal → TokenEntry → Via → Type 0
  Names p e via = (p.token_name ≡ e.name) × (p.scope ≡ e.scope) × (p.via ≡ via)

  resolved :
      (key : Bytes) (tokens : List TokenEntry) (h : Headers) (now : ℕ) (p : Principal)
      (b c : Option Bytes)
      → h.bearer_token ≡ b
      → h.cookie_value ≡ c
      → credential sha256 hmac base64 key tokens b c now ≡ some p
      → (e : TokenEntry) × (via : Via) × Presents key tokens h now e via × Names p e via
  unfolding credential
  resolved key tokens h now p (some token) c hb hc r =
      let (e, a, n) = bearer_named (authenticate sha256 tokens token) p r in
      (e, bearer, (token, hb, a), n)
  resolved key tokens h now p none none hb hc r = absurd (ground (arith, r))
  resolved key tokens h now p none (some value) hb hc r =
      let (e, expires, a, n) = cookie_named (verify hmac base64 key tokens value now) p r in
      (e, cookie, (value, expires, hb, hc, a), n)

  presented :
      (key : Bytes) (tokens : List TokenEntry) (h : Headers) (now : ℕ) (e : TokenEntry) (via : Via)
      → Presents key tokens h now e via
      → (p : Principal) × (credential sha256 hmac base64 key tokens h.bearer_token h.cookie_value
            now
          ≡ some p)
        × Names p e via
  unfolding credential by_bearer by_cookie
  presented key tokens h now e bearer (token, b, a) = (
    record { token_name = e.name; scope = e.scope; via = bearer; expires_unix = none },
    rw (b, a) refl,
    (refl, refl, refl),
  )
  presented key tokens h now e cookie (value, expires, b, c, a) = (
    record { token_name = e.name; scope = e.scope; via = cookie; expires_unix = seconds expires },
    rw (b, c, a) refl,
    (refl, refl, refl),
  )

  admit-runs :
      (need : Scope) (req : Request) (subject : Option String) (o : Option Principal)
      (actor : Option Bytes) (s : Option String)
      → admit sha256 hmac base64 need req subject o ≡ runs actor s
      → (p : Principal) × (o ≡ some p)
        × Admissible need req p.scope p.via
        × (actor ≡ some p.token_name)
        × (s ≡ subject)
  unfolding admit
  admit-runs need req subject none actor s e = ground arith
  admit-runs need req subject (some p) actor s e = (
    p,
    refl,
    (ground arith, (passes p.via req.method req.headers).0 (ground arith)),
    ground arith,
    ground arith,
  )

  runs-admit :
      (need : Scope) (req : Request) (subject : Option String) (p : Principal)
      → Admissible need req p.scope p.via
      → admit sha256 hmac base64 need req subject (some p) ≡ runs (some p.token_name) subject
  unfolding admit
  runs-admit need req subject p (a, b) = ground (arith, (passes p.via req.method req.headers).1 b)

  -- What a request has to have for its handler to run as an actor.
  abbrev pub IsLet : AuthState → Request → (now : ℕ) → (actor : Option Bytes) → Type 0
  IsLet auth req now actor =
      (((auth.tokens ≡ none) ⊎ (required_access req.method req.route ≡ open_route))
        × (actor ≡ none))
      ⊎ ((tokens : List TokenEntry) × (need : Scope) × (e : TokenEntry) × (via : Via) × (auth.tokens
            ≡ some tokens)
          × (required_access req.method req.route ≡ requires need)
          × Presents auth.session_key tokens req.headers now e via
          × Admissible need req e.scope via
          × (actor ≡ some e.name))

  gate-IsLet :
      (auth : AuthState) (req : Request) (now : ℕ) (tokens : List TokenEntry) (a : Access)
      (subject : Option String) (actor : Option Bytes) (s : Option String)
      → auth.tokens ≡ some tokens
      → required_access req.method req.route ≡ a
      → (gate sha256 hmac base64 a req subject (
            credential sha256 hmac base64 auth.session_key tokens req.headers.bearer_token
              req.headers.cookie_value now)
          ≡ runs actor s)
        ↔ (IsLet auth req now actor × (s ≡ subject))
  unfolding gate
  gate-IsLet auth req now tokens open_route subject actor s t a = (
    λ e. (inl (inr a, ground (arith, e)), ground (arith, e)),
    λ (l, claimed). elim l [
      | inl (o, none_acts) ↦ rw (claimed, none_acts) refl
      | inr (tokens', need, e, via, t', a', presents, enough, acts) ↦ absurd (ground (arith, a, a'))
    ],
  )
  gate-IsLet auth req now tokens (requires need) subject actor s t a = (
    λ e.
        let (p, o, (enough, safe), named, claimed) = admit-runs need req subject _ actor s e in
        let (entry, via, presents, (n, sc, v)) =
          resolved auth.session_key tokens req.headers now p _ _ refl refl o in
        (
          inr (
            tokens,
            need,
            entry,
            via,
            t,
            a,
            presents,
            (
              rw (sym sc) enough,
              subst
                  (λ x.
                    (x ≡ bearer)
                    ⊎ (req.method ≡ "GET")
                    ⊎ (req.method ≡ "HEAD")
                    ⊎ ComesFromHere req.headers)
                  v safe,
            ),
            named ∙ ap some n,
          ),
          claimed,
        ),
    λ (l, claimed). elim l [
      | inl (inl off, none_acts) ↦ absurd (ground (arith, t, off))
      | inl (inr o, none_acts) ↦ absurd (ground (arith, a, o))
      | inr (tokens', need', e, via, t', a', presents, (enough, safe), acts) ↦
          let same : tokens' ≡ tokens = ground (arith, t, t') in
          let same_need : need' ≡ need = ground (arith, a, a') in
          let (p, c, (n, sc, v)) =
            presented auth.session_key tokens req.headers now e via
              (subst (λ ts. Presents auth.session_key ts req.headers now e via) same presents) in
          ap (admit sha256 hmac base64 need req subject) c
          ∙ runs-admit need req subject p (
            rw (sc, sym same_need) enough,
            subst
                (λ x.
                  (x ≡ bearer)
                  ⊎ (req.method ≡ "GET")
                  ⊎ (req.method ≡ "HEAD")
                  ⊎ ComesFromHere req.headers)
                (sym v) safe,
          )
          ∙ rw (n, acts, claimed) refl
    ],
  )

  middleware_off :
      (auth : AuthState) (req : Request) (now : ℕ) (subject : Option String)
      → req.on_behalf_of ≡ some subject
      → auth.tokens ≡ none
      → middleware sha256 hmac base64 auth req now ≡ runs none subject
  unfolding middleware is_enabled
  middleware_off auth req now subject o t = ground (arith, o, t)

  middleware_on :
      (auth : AuthState) (req : Request) (now : ℕ) (subject : Option String)
      (tokens : List TokenEntry)
      → req.on_behalf_of ≡ some subject
      → auth.tokens ≡ some tokens
      → middleware sha256 hmac base64 auth req now
        ≡ gate sha256 hmac base64 (required_access req.method req.route) req subject (
            credential sha256 hmac base64 auth.session_key tokens req.headers.bearer_token
              req.headers.cookie_value now)
  unfolding middleware is_enabled resolve_principal
  middleware_on auth req now subject tokens o t = ground (arith, o, t)

  middleware_bad :
      (auth : AuthState) (req : Request) (now : ℕ)
      → req.on_behalf_of ≡ none
      → middleware sha256 hmac base64 auth req now ≡ bad_request
  unfolding middleware
  middleware_bad auth req now o = ground (arith, o)

  middleware-IsLet :
      (auth : AuthState) (req : Request) (now : ℕ) (actor : Option Bytes) (s : Option String)
      (o : Option (Option String)) (ts : Option (List TokenEntry))
      → req.on_behalf_of ≡ o
      → auth.tokens ≡ ts
      → (middleware sha256 hmac base64 auth req now ≡ runs actor s)
        ↔ ((o ≡ some s) × IsLet auth req now actor)
  middleware-IsLet auth req now actor s none ts o t = (
    λ e. absurd (ground (arith, e, middleware_bad auth req now o)),
    λ (e, l). absurd (ground (arith, e)),
  )
  middleware-IsLet auth req now actor s (some subject) none o t =
      let off = middleware_off auth req now subject o t in
      (
        λ e. (ground (arith, e, off), inl (inl t, ground (arith, e, off))),
        λ (e, l). elim l [
          | inl (off_or_open, acts) ↦ off ∙ ground (arith, e, acts)
          | inr (tokens, need, entry, via, t', a', presents, enough, acts) ↦
              absurd (ground (arith, t, t'))
        ],
      )
  middleware-IsLet auth req now actor s (some subject) (some tokens) o t =
      let (to, from) =
        gate-IsLet auth req now tokens (required_access req.method req.route) subject actor s t
          refl in
      let on = middleware_on auth req now subject tokens o t in
      (
        λ e. let (l, c) = to (sym on ∙ e) in (ap some (sym c), l),
        λ (e, l). on ∙ from (l, ground (arith, e)),
      )

  -- The handler of a request runs, as an actor and for a subject, exactly when the header that claims the
  -- subject is not malformed and claims that subject, and either there are no tokens or the route is open,
  -- and there is no actor, or the request presents a token's entry, by a bearer token or, where it has
  -- none, by a cookie, whose scope is enough for the route and which is the actor; with a cookie the
  -- method is GET or HEAD, or the request comes from the origin itself.
  pub middleware-runs :
      (auth : AuthState) (req : Request) (now : ℕ) (actor : Option Bytes) (subject : Option String)
      → (middleware sha256 hmac base64 auth req now ≡ runs actor subject)
        ↔ ((req.on_behalf_of ≡ some subject) × IsLet auth req now actor)
  middleware-runs auth req now actor subject =
      middleware-IsLet auth req now actor subject req.on_behalf_of auth.tokens refl refl
