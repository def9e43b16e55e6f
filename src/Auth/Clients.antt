-- ===== src/Auth/Clients.antt =====
-- Client authentication: memory/client_authenticator.go, client_assertion_validator.go, and
-- authenticateClient of grant_strategy.go.
pub mod Proofs
use identity_platform_go.Base.{
  ℕ, Bool, Option, none, some, String, List, [], Result, ok, err, ◌>>=◌, ◌>>◌, or_fail, or_else,
  fail_if, lift, pure, fail, not, ◌&&◌, ◌==◌, if◌then◌else◌, contains, is_empty, unauthorized,
  missing,
}
use identity_platform_go.Base.Dict.{Dict}
use identity_platform_go.Auth.Domain.{Client, Error, app}
use identity_platform_go.Auth.Requests.{GrantRequest}
use identity_platform_go.Auth.Store.{find_client, mark_assertion}
use identity_platform_go.Auth.World.{Env, World, Assertion, M, now}

-- `ClientAuthenticator.Lookup`
unfoldable pub lookup_client : String → M Client
unfolding find_client
lookup_client id w = elim (find_client id w.clients) [
  | err _ ↦ (err (app missing), w)
  | ok c ↦ (ok c, w)
]

-- `ClientAuthenticator.Authenticate`
unfoldable pub authenticate : String → String → M Client
unfolding find_client
authenticate id secret w = elim (find_client id w.clients) [
  | err _ ↦ (err (app unauthorized), w)
  | ok c ↦ (if c.secret == secret then ok c else err (app unauthorized), w)
]

-- `validateClaims`. On success it gives the expiry, which the caller reads next.
unfoldable pub validate_claims : Env → Assertion → String → Result Error ℕ
validate_claims env claims id =
    if not ((claims.issuer == id) && (claims.subject == id))
    then err (app unauthorized)
    else if not (contains claims.audience env.assertion_audience)
    then err (app unauthorized)
    else elim claims.expires_at [
      | none ↦ err (app unauthorized)
      | some exp ↦ if is_empty claims.jti then err (app unauthorized) else ok exp
    ]

-- `MarkUsed` at the time of the call; a replay is wrapped as unauthorized.
unfoldable pub use_assertion : Env → String → ℕ → M (Unit {0})
use_assertion env jti exp = do
  t ← now env
  λ w.
      let (r, d) = mark_assertion t jti exp w.assertion_jtis in
      (elim r [ ok _ ↦ ok tt | err _ ↦ err (app unauthorized) ], record w { assertion_jtis = d })

-- `ClientAssertionValidator.Authenticate`; the parser reads the clock itself.
unfoldable pub authenticate_assertion :
    Env → (ℕ → String → String → Option Assertion) → String → String → M Client
unfolding lookup_client validate_claims use_assertion
authenticate_assertion env parse id assertion = do
  client ← lookup_client id
  fail_if (is_empty client.jwks_uri) (app unauthorized)
  at ← now env
  claims ← or_fail (parse at assertion client.jwks_uri) (app unauthorized)
  exp ← lift (validate_claims env claims id)
  use_assertion env claims.jti exp
  pure client

-- `authenticateClient`: an assertion, once presented, is never replaced by the secret.
unfoldable pub authenticate_client : Env → GrantRequest → M Client
unfolding authenticate authenticate_assertion
authenticate_client env req =
    if is_empty req.client_assertion
    then authenticate req.client_id req.client_secret
    else elim env.parse_assertion [
      | none ↦ fail (app unauthorized)
      | some parse ↦ authenticate_assertion env parse req.client_id req.client_assertion
    ]
