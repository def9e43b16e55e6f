-- ===== src/Auth/Grants/ClientCredentials.antt =====
-- ClientCredentialsStrategy of grant_strategy.go.
pub mod Proofs
use identity_platform_go.Base.{
  ℕ, ◌+◌, ◌/◌, Bool, true, false, String, List, [], ◌∷◌, Result, ok, err, ◌>>=◌, ◌>>◌, fail_if,
  lift, pure, not, ◌&&◌, ◌==◌, if◌then◌else◌, contains, forbidden,
}
use identity_platform_go.Base.Words.{join}
use identity_platform_go.Auth.Domain.{
  Client, Error, app, Token, no_token, resolved_actor_type, agent_id, has_scope, has_grant_type,
  grant_client_credentials,
}
use identity_platform_go.Auth.Requests.{GrantRequest, GrantResponse, no_response, dpop_token_type}
use identity_platform_go.Auth.World.{Env, World, M, now, second}
use identity_platform_go.Auth.Clients.{authenticate_client}
use identity_platform_go.Auth.Tokens.{generate_id, issue_access, issue_refresh, fetch_permissions}

-- `validateClient`
unfoldable pub validate_client : Env → GrantRequest → M Client
validate_client env req = do
  client ← authenticate_client env req
  fail_if (not (has_grant_type client grant_client_credentials)) (app forbidden)
  pure client

-- The loop of `resolveScopes`: it stops at the first scope that the client lacks.
unfoldable pub all_allowed : List String → List String → Bool
all_allowed allowed [] = true
all_allowed allowed (s ∷ ss) = contains allowed s && all_allowed allowed ss

-- `scopes := requested; if len(scopes) == 0 { scopes = client.Scopes }`
unfoldable pub or_default : List String → List String → List String
or_default [] all = all
or_default (s ∷ ss) all = s ∷ ss

-- `resolveScopes`
unfoldable pub resolve_scopes : Client → List String → Result Error (List String)
resolve_scopes client requested =
    let scopes = or_default requested client.scopes in
    if all_allowed client.scopes scopes then ok scopes else err (app forbidden)

-- The access token that `issueAccessToken` builds.
abbrev pub client_token : Env → GrantRequest → Client → List String → ℕ → String → Token
client_token env req client scopes at id = record no_token {
  id = id;
  client_id = client.id;
  subject = client.id;
  scopes = scopes;
  roles = (fetch_permissions env req.client_id).0;
  permissions = (fetch_permissions env req.client_id).1;
  actor_type = resolved_actor_type client;
  agent_id = agent_id client;
  authorization_details = req.authorization_details;
  jkt = req.dpop_jkt;
  expires_at = at + env.ttl;
  issued_at = at;
  token_type = dpop_token_type req.dpop_jkt;
}

abbrev pub client_response :
    Env → GrantRequest → Client → List String → String → String → GrantResponse
client_response env req client scopes raw refresh = record no_response {
  access_token = raw;
  token_type = dpop_token_type req.dpop_jkt;
  expires_in = env.ttl / second;
  refresh_token = refresh;
  scope = join scopes;
  actor_type = resolved_actor_type client;
  agent_id = agent_id client;
  subject = client.id;
}

-- `Handle`, with `issueAccessToken` and `issueRefreshToken`
unfoldable pub client_credentials : Env → GrantRequest → M GrantResponse
client_credentials env req = do
  client ← validate_client env req
  scopes ← lift (resolve_scopes client req.scopes)
  at ← now env
  id ← generate_id env
  raw ← issue_access env (client_token env req client scopes at id)
  refresh ← issue_refresh env req.client_id req.client_id scopes at
  pure (client_response env req client scopes raw refresh)
