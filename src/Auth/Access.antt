-- ===== src/Auth/Access.antt =====
-- crates/api/src/auth/mod.rs: which scope a route needs, and what the middleware does with a request.
-- A request is what the code reads of it: its method, its matched route, what the headers carry.
pub mod Admission
use prospero.Prelude.{
  ℕ, ◌+◌, ◌≤◌, ◌<◌, Bool, true, false, ◌&&◌, ◌||◌, not, Option, none, some, List, [], ◌∷◌, String,
  str_eq, leb, ltb, ◌==◌, any, if◌then◌else◌,
}
use prospero.Auth.Session.{I64, nonneg, negative, verify}
use prospero.Auth.{
  Bytes, Scope, read, operate, admin, rank, TokenEntry, authenticate, by_name, constant_time_eq,
}

-- A route's requirement.
pub data Access : Type 0 where
  open_route : Access
  requires : Scope → Access

one_of : List String → String → Bool
one_of routes route = any (str_eq route) routes

abbrev pub open_routes : List String
open_routes =
    "/healthz" ∷ "/readyz" ∷ "/" ∷ "/assets/{*path}" ∷ "/api/session" ∷ "/api/openapi.json" ∷ []

abbrev pub read_routes : List String
read_routes =
    "/api/metrics" ∷ "/api/capabilities" ∷ "/api/fleet" ∷ "/api/fleet/stream" ∷ "/api/usage"
    ∷ "/api/workspaces" ∷ "/api/workspaces/{workspace}/agents" ∷ "/api/agents/{id}"
    ∷ "/api/agents/{id}/events" ∷ "/api/agents/{id}/stream" ∷ "/api/automations"
    ∷ "/api/automations/{id}/runs" ∷ []

abbrev pub operate_routes : List String
operate_routes =
    "/api/workspaces/{workspace}/agents" ∷ "/api/agents/{id}/kill" ∷ "/api/agents/{id}/respawn"
    ∷ "/api/agents/{id}/input" ∷ "/api/agents/{id}/end-input" ∷ "/api/automations/{id}/run" ∷ []

-- Whether the method is `GET` or `HEAD`.
unfoldable pub is_safe : String → Bool
is_safe method = str_eq method "GET" || str_eq method "HEAD"

-- The table, its arms in order; the last ones name `admin`, as an unlisted route does.
unfoldable pub required_access : String → String → Access
unfolding one_of
required_access method route =
    if one_of open_routes route
    then open_route
    else (if str_eq method "POST" && str_eq route "/api/automations/{id}/trigger"
        then open_route
        else (if is_safe method && one_of read_routes route
            then requires read
            else (if str_eq method "POST" && one_of operate_routes route
                  || str_eq method "DELETE" && str_eq route "/api/agents/{id}"
                then requires operate
                else (if str_eq route "/mcp" then requires operate else requires admin))))

pub data Via : Type 0 where
  bearer cookie : Via

-- The authenticated caller. The time is in seconds of the Unix epoch.
pub record Principal : Type 0 where
  pub token_name : Bytes
  pub scope : Scope
  pub via : Via
  pub expires_unix : Option ℕ

-- The headers that the code reads: `bearer_token` and `cookie_value` are those functions' results on the
-- header map, `origin_host` is what follows `://` in the origin.
pub record Headers : Type 0 where
  pub bearer_token : Option Bytes
  pub cookie_value : Option Bytes
  pub sec_fetch_site : Option String
  pub origin_host : Option String
  pub host : Option String

-- `on_behalf_of` is `subject_header`'s result: the subject claimed, or that it is malformed.
pub record Request : Type 0 where
  pub method : String
  pub route : String
  pub headers : Headers
  pub on_behalf_of : Option (Option String)

pub record AuthState : Type 0 where
  pub tokens : Option (List TokenEntry)
  pub session_key : Bytes

-- Either the handler runs, as an actor and for a subject, or a status is answered.
pub data Outcome : Type 0 where
  runs : (actor : Option Bytes) (subject : Option String) → Outcome
  bad_request unauthorized cross_origin : Outcome
  forbidden : Scope → Outcome

same_host : Option String → Option String → Bool
same_host (some origin) (some host) = str_eq origin host
same_host (some origin) none = false
same_host none host = false

unfoldable pub same_origin : Headers → Bool
unfolding same_host
same_origin h = elim h.sec_fetch_site [
  | some site ↦ str_eq site "same-origin"
  | none ↦ same_host h.origin_host h.host
]

seconds : I64 → Option ℕ
seconds (nonneg n) = some n
seconds (negative n) = none

-- A principal by a token, and one by a cookie.
by_bearer : Option TokenEntry → Option Principal
by_bearer none = none
by_bearer (some e) =
    some (record { token_name = e.name; scope = e.scope; via = bearer; expires_unix = none })

by_cookie : Option (TokenEntry × I64) → Option Principal
unfolding seconds
by_cookie none = none
by_cookie (some (e, expires)) =
    some (record {
      token_name = e.name;
      scope = e.scope;
      via = cookie;
      expires_unix = seconds expires;
    })

unfoldable pub is_cookie : Via → Bool
is_cookie bearer = false
is_cookie cookie = true

module _ (sha256 : Bytes → Bytes) (hmac : Bytes → Bytes → Bytes) (base64 : Bytes → Bytes) where
  -- A cookie is looked at only where there is no bearer token.
  credential : Bytes → List TokenEntry → Option Bytes → Option Bytes → ℕ → Option Principal
  unfolding by_bearer by_cookie
  credential key tokens (some token) value now = by_bearer (authenticate sha256 tokens token)
  credential key tokens none none now = none
  credential key tokens none (some value) now = by_cookie (verify hmac base64 key tokens value now)

  unfoldable pub resolve_principal : AuthState → Headers → ℕ → Option Principal
  unfolding credential
  resolve_principal auth h now = elim auth.tokens [
    | none ↦ none
    | some tokens ↦ credential auth.session_key tokens h.bearer_token h.cookie_value now
  ]

  -- The decision on a route that needs a scope.
  unfoldable pub admit : Scope → Request → Option String → Option Principal → Outcome
  unfolding is_cookie
  admit need req subject none = unauthorized
  admit need req subject (some p) =
      if ltb (rank p.scope) (rank need)
      then forbidden need
      else (if is_cookie p.via && (not (is_safe req.method) && not (same_origin req.headers))
          then cross_origin
          else runs (some p.token_name) subject)

  unfoldable pub gate : Access → Request → Option String → Option Principal → Outcome
  gate open_route req subject p = runs none subject
  gate (requires need) req subject p = admit need req subject p

  unfoldable pub is_enabled : Option (List TokenEntry) → Bool
  is_enabled none = false
  is_enabled (some tokens) = true

  unfoldable pub middleware : AuthState → Request → ℕ → Outcome
  unfolding gate is_enabled
  middleware auth req now = elim req.on_behalf_of [
    | none ↦ bad_request
    | some subject ↦
        if is_enabled auth.tokens
        then gate (required_access req.method req.route) req subject
            (resolve_principal auth req.headers now)
        else runs none subject
  ]
