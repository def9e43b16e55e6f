-- ===== src/Auth/Tokens.antt =====
-- Making, signing and reading tokens: token_service.go and rs256_token.go of auth-server's
-- application layer, and what every grant strategy does with them.
pub mod Issue
pub mod RoundTrip
pub mod Steps
use identity_platform_go.Base.{
  ℕ, ◌+◌, Bool, Option, none, some, String, List, [], ◌∷◌, Result, ok, err, ◌>>=◌, ◌>>◌, or_fail,
  fail_if, pure, not, ◌&&◌, ◌==◌, if◌then◌else◌, is_empty, internal, map, modify, lift,
}
use identity_platform_go.Base.Words.{join, fields}
use identity_platform_go.Auth.Domain.{
  AuthorizationDetail, Token, no_token, RefreshToken, Error, app, invalid_token, type_bearer,
}
use identity_platform_go.Auth.Store.{save_token, save_refresh}
use identity_platform_go.Auth.World.{Env, World, Claims, M, now, draw}

-- `generateID`, whose failure every caller wraps as an internal error
unfoldable pub generate_id : Env → M String
unfolding draw
generate_id env w =
    let (r, w') = draw env w in (elim r [ ok id ↦ ok id | err _ ↦ err (app internal) ], w')

-- `AuthorizationDetailsToRaw` and `authorizationDetailsFromJWT`
abbrev pub to_raw : List AuthorizationDetail → List String
to_raw = map (λ d. d.raw)

abbrev pub from_raw : Env → List String → List AuthorizationDetail
from_raw env = map (λ raw. record { kind = env.json_type raw; raw = raw })

-- `RS256TokenGenerator.Generate`, up to the signature
unfoldable pub claims_rs256 : Env → Token → Claims
claims_rs256 env t = record {
  issuer = env.issuer;
  subject = t.subject;
  token_id = t.id;
  client_id = t.client_id;
  scope = join t.scopes;
  audience = env.audience;
  roles = t.roles;
  permissions = t.permissions;
  actor_type = t.actor_type;
  agent_id = t.agent_id;
  active_account_id = t.active_account_id;
  act = t.act;
  authorization_details = to_raw t.authorization_details;
  issued_at = t.issued_at;
  expires_at = t.expires_at;
}

-- `JWTTokenGenerator.Generate`, up to the signature: the chain and the details are left out.
unfoldable pub claims_hs256 : Env → Token → Claims
unfolding claims_rs256
claims_hs256 env t = let c = claims_rs256 env t in record c { act = []; authorization_details = [] }

-- The token generator that the container wires for the configured algorithm.
unfoldable pub generate : Env → Token → Option String
generate env t =
    if env.rs256 then env.sign_rs256 (claims_rs256 env t) else env.sign_hs256 (claims_hs256 env t)

-- `JWTTokenValidator.Validate` behind the parser
unfoldable pub token_of_hs256 : String → Claims → Token
token_of_hs256 raw c = record no_token {
  id = c.token_id;
  client_id = c.client_id;
  subject = c.subject;
  issuer = c.issuer;
  audience = c.audience;
  scopes = fields c.scope;
  actor_type = c.actor_type;
  agent_id = c.agent_id;
  active_account_id = c.active_account_id;
  expires_at = c.expires_at;
  issued_at = c.issued_at;
  token_type = type_bearer;
  raw = raw;
}

-- `RS256TokenValidator.Validate` behind the parser
unfoldable pub token_of_rs256 : Env → String → Claims → Token
token_of_rs256 env raw c = record no_token {
  id = c.token_id;
  client_id = c.client_id;
  subject = c.subject;
  issuer = c.issuer;
  audience = c.audience;
  scopes = fields c.scope;
  actor_type = c.actor_type;
  agent_id = c.agent_id;
  active_account_id = c.active_account_id;
  act = c.act;
  authorization_details = from_raw env c.authorization_details;
  expires_at = c.expires_at;
  issued_at = c.issued_at;
  token_type = type_bearer;
  raw = raw;
}

unfoldable pub validate_hs256 : Env → String → ℕ → Result Error Token
validate_hs256 env raw t =
    elim (if is_empty env.issuer
      then env.parse_hs256 t raw
      else env.parse_hs256_issuer t env.issuer raw) [
        | none ↦ err invalid_token
        | some c ↦ ok (token_of_hs256 raw c)
      ]

unfoldable pub validate_rs256 : Env → String → ℕ → Result Error Token
validate_rs256 env raw t = elim (env.parse_rs256 t raw) [
  | none ↦ err invalid_token
  | some c ↦
      if not (is_empty env.issuer) && not (c.issuer == env.issuer)
      then err invalid_token
      else ok (token_of_rs256 env raw c)
]

-- `TokenValidator.Validate`; the parser reads the clock itself.
unfoldable pub validate : Env → String → M Token
validate env raw = do
  t ← now env
  lift (if env.rs256 then validate_rs256 env raw t else validate_hs256 env raw t)

-- Every strategy: `raw, err := tokenGen.Generate(…); token.Raw = raw; tokenRepo.Save(…)`.
unfoldable pub issue_access : Env → Token → M String
unfolding save_token
issue_access env t = do
  raw ← or_fail (generate env t) (app internal)
  modify (λ w. record w { tokens = save_token (record t { raw = raw }) w.tokens })
  pure raw

-- Every strategy's refresh token: opaque, stored under its raw value.
unfoldable pub issue_refresh : Env → String → String → List String → ℕ → M String
unfolding generate_id save_refresh
issue_refresh env client_id subject scopes at = do
  raw ← generate_id env
  id ← generate_id env
  let rt : RefreshToken = record {
    id = id;
    raw = raw;
    client_id = client_id;
    subject = subject;
    scopes = scopes;
    issued_at = at;
    expires_at = at + env.refresh_ttl;
  }
  modify (λ w. record w { refresh_tokens = save_refresh rt w.refresh_tokens })
  pure raw

-- `roles, permissions, _ = permsFetcher.GetSubjectPermissions(…)`: a failure reads as no claims.
unfoldable pub fetch_permissions : Env → String → List String × List String
fetch_permissions env subject = elim env.permissions [
  | none ↦ ([], [])
  | some fetch ↦ elim (fetch subject) [ none ↦ ([], []) | some rp ↦ rp ]
]

-- `resolveActiveAccount`
unfoldable pub resolve_active_account : Env → String → String
resolve_active_account env subject = elim env.active_account [
  | none ↦ ""
  | some fetch ↦ elim (fetch subject) [ none ↦ "" | some id ↦ id ]
]
