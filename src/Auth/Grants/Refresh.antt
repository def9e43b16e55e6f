-- ===== src/Auth/Grants/Refresh.antt =====
-- RefreshTokenStrategy of grant_strategy.go.
pub mod Rotation
use identity_platform_go.Base.{
  ℕ, ◌+◌, ◌/◌, Bool, String, List, Result, ok, err, ◌>>=◌, ◌>>◌, fail_if, pure, not, ◌==◌,
  if◌then◌else◌, ltb, unauthorized, modify,
}
use identity_platform_go.Base.Words.{join}
use identity_platform_go.Auth.Domain.{
  Client, Error, app, Token, no_token, RefreshToken, resolved_actor_type, agent_id, actor_user,
}
use identity_platform_go.Auth.Requests.{GrantRequest, GrantResponse, no_response, dpop_token_type}
use identity_platform_go.Auth.Store.{find_refresh, delete_refresh}
use identity_platform_go.Auth.World.{Env, World, M, now, second}
use identity_platform_go.Auth.Clients.{authenticate_client}
use identity_platform_go.Auth.Tokens.{
  generate_id, issue_access, issue_refresh, fetch_permissions, resolve_active_account,
}

-- `refreshTokenRepo.Delete`, where a missing token is no error
unfoldable pub forget_refresh : String → M (Unit {0})
unfolding delete_refresh
forget_refresh raw =
    modify (λ w. record w { refresh_tokens = (delete_refresh raw w.refresh_tokens).1 })

-- `checkExpiry`
unfoldable pub check_expiry : Env → String → RefreshToken → M (Unit {0})
unfolding forget_refresh
check_expiry env raw rt w =
    let (_, w₁) = now env w in
    let (_, w₂) = forget_refresh raw w₁ in
    if not (ltb rt.expires_at (env.clock w.readings))
    then (ok tt, w₁)
    else (err (app unauthorized), w₂)

-- `refreshTokenRepo.FindByRaw` and its error
unfoldable pub stored_refresh : String → M RefreshToken
unfolding find_refresh
stored_refresh raw w = elim (find_refresh raw w.refresh_tokens) [
  | err _ ↦ (err (app unauthorized), w)
  | ok rt ↦ (ok rt, w)
]

-- `validateRefreshToken`
unfoldable pub validate_refresh : Env → GrantRequest → M (RefreshToken × Client)
unfolding stored_refresh check_expiry
validate_refresh env req = do
  client ← authenticate_client env req
  existing ← stored_refresh req.refresh_token
  fail_if (not (existing.client_id == req.client_id)) (app unauthorized)
  check_expiry env req.refresh_token existing
  pure (existing, client)

-- `refreshActorClassification`
unfoldable pub refresh_actor : RefreshToken → Client → String × String
refresh_actor rt client =
    if rt.subject == rt.client_id
    then (resolved_actor_type client, agent_id client)
    else (actor_user, "")

-- `rotateRefreshToken`
unfoldable pub rotate_refresh : Env → String → RefreshToken → ℕ → M String
unfolding forget_refresh
rotate_refresh env raw existing at = do
  forget_refresh raw
  issue_refresh env existing.client_id existing.subject existing.scopes at

-- The access token that `Handle` builds.
abbrev pub refreshed_token : Env → RefreshToken → Client → String → ℕ → String → Token
refreshed_token env existing client jkt at id = record no_token {
  id = id;
  client_id = existing.client_id;
  subject = existing.subject;
  scopes = existing.scopes;
  roles = (fetch_permissions env existing.subject).0;
  permissions = (fetch_permissions env existing.subject).1;
  actor_type = (refresh_actor existing client).0;
  agent_id = (refresh_actor existing client).1;
  active_account_id = resolve_active_account env existing.subject;
  jkt = jkt;
  expires_at = at + env.ttl;
  issued_at = at;
  token_type = dpop_token_type jkt;
}

abbrev pub refresh_response : Env → RefreshToken → Client → String → String → String → GrantResponse
refresh_response env existing client jkt raw refresh = record no_response {
  access_token = raw;
  token_type = dpop_token_type jkt;
  expires_in = env.ttl / second;
  refresh_token = refresh;
  scope = join existing.scopes;
  actor_type = (refresh_actor existing client).0;
  agent_id = (refresh_actor existing client).1;
  subject = existing.subject;
}

-- `Handle`
unfoldable pub refresh : Env → GrantRequest → M GrantResponse
refresh env req = do
  (existing, client) ← validate_refresh env req
  at ← now env
  id ← generate_id env
  raw ← issue_access env (refreshed_token env existing client req.dpop_jkt at id)
  new ← rotate_refresh env req.refresh_token existing at
  pure (refresh_response env existing client req.dpop_jkt raw new)
