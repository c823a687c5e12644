-- ===== src/Tests/Callers.antt =====
-- Tokens, sessions and the middleware.
use prospero.Prelude.{◌≡◌, ◌↔◌, refl, Option, none, some, [], ◌∷◌, String, arith}
use prospero.Auth.{Bytes, operate, TokenEntry, bytes_eq, by_name}
use prospero.Auth.Session.{nonneg, sign, verify}
use prospero.Auth.Session.RoundTrip.{verify-sign}
use prospero.Auth.Access.{Request, AuthState, middleware, runs}
use prospero.Auth.Access.Admission.{middleware-runs, IsLet}

-- Stands for SHA-256: a digest is the token itself.
abbrev sha256 : Bytes → Bytes
sha256 token = token

abbrev hmac : Bytes → Bytes → Bytes
hmac key message = message

abbrev base64 : Bytes → Bytes
base64 b = b

-- The token of the name `ops`.
abbrev ops : TokenEntry
ops = record { name = 111 ∷ 112 ∷ 115 ∷ []; scope = operate; hash = 7 ∷ 9 ∷ [] }

verify-sign_example :
    verify hmac base64 (1 ∷ []) (ops ∷ []) (sign hmac base64 (1 ∷ []) ops (nonneg 1000)) 999
    ≡ some (ops, nonneg 1000)
unfolding by_name bytes_eq
verify-sign_example =
    verify-sign hmac base64 (1 ∷ []) (ops ∷ []) ops 1000 999 refl
      (λ e. ground arith, (λ e. ground arith, (λ e. ground arith, tt))) (omega arith) (omega arith)

abbrev auth : AuthState
auth = record { tokens = some (ops ∷ []); session_key = 1 ∷ [] }

abbrev kill_request : Request
kill_request = record {
  method = "POST";
  route = "/api/agents/{id}/kill";
  headers = record {
    bearer_token = some (7 ∷ 9 ∷ []);
    cookie_value = none;
    sec_fetch_site = none;
    origin_host = none;
    host = none;
  };
  on_behalf_of = some (some "kim");
}

abbrev kim : Option String
kim = some "kim"

middleware-runs_example :
    (middleware sha256 hmac base64 auth kill_request 0 ≡ runs (some ops.name) kim) ↔ (
      (kill_request.on_behalf_of ≡ some kim)
      × IsLet sha256 hmac base64 auth kill_request 0 (some ops.name))
middleware-runs_example = middleware-runs sha256 hmac base64 auth kill_request 0 (some ops.name) kim
