-- ===== src/Auth/Grants/Code.antt =====
-- AuthorizationCodeStrategy of grant_strategy.go, and authcode_issuer.go, which makes the codes.
pub mod Checks
pub mod Redeem
pub mod Once
pub mod Live
use identity_platform_go.Base.{
  ℕ, ◌+◌, ◌/◌, Bool, true, false, String, List, [], ◌∷◌, Result, ok, err, ◌>>=◌, ◌>>◌, fail_if,
  lift, pure, not, ◌&&◌, ◌==◌, if◌then◌else◌, contains, is_empty, modify,
}
use identity_platform_go.Base.Words.{join}
use identity_platform_go.Auth.Domain.{
  Client, AuthorizationCode, AuthorizationDetail, Error, invalid_request, invalid_grant,
  unauthorized_client, invalid_issue, random_failed, code_not_found, Token, no_token,
  has_grant_type, grant_authorization_code, code_expired, has_valid_pkce_method, actor_user,
  acr_password,
}
use identity_platform_go.Auth.Requests.{GrantRequest, GrantResponse, no_response, dpop_token_type}
use identity_platform_go.Auth.Store.{consume_code, save_code}
use identity_platform_go.Auth.World.{Env, World, M, now, draw, second}
use identity_platform_go.Auth.Clients.{authenticate_client}
use identity_platform_go.Auth.Tokens.{
  generate_id, issue_access, issue_refresh, fetch_permissions, resolve_active_account,
}
use identity_platform_go.Auth.Grants.IdToken.{maybe_id_token}

-- `ports.IssueCodeRequest`
pub record IssueRequest : Type 0 where
  pub client_id : String
  pub subject : String
  pub redirect_uri : String
  pub scopes : List String
  pub code_challenge : String
  pub code_challenge_method : String
  pub nonce : String
  pub authorization_details : List AuthorizationDetail

-- `validateIssueRequest`
unfoldable pub valid_issue : IssueRequest → Bool
valid_issue r =
    not (is_empty r.client_id)
    && not (is_empty r.subject)
    && not (is_empty r.redirect_uri)
    && r.code_challenge_method == "S256"

-- `authorizationCodeIssuer.Issue`
unfoldable pub issue_code : Env → IssueRequest → M String
unfolding valid_issue save_code
issue_code env r = do
  fail_if (not (valid_issue r)) invalid_issue
  raw ← draw env
  at ← now env
  let code : AuthorizationCode = record {
    code = raw;
    client_id = r.client_id;
    subject = r.subject;
    redirect_uri = r.redirect_uri;
    scopes = r.scopes;
    code_challenge = r.code_challenge;
    code_challenge_method = r.code_challenge_method;
    nonce = r.nonce;
    authorization_details = r.authorization_details;
    issued_at = at;
    expires_at = at + env.code_ttl;
  }
  modify (λ w. record w { codes = save_code code w.codes })
  pure raw

-- `validateAuthCodeRequestFields`
unfoldable pub validate_fields : GrantRequest → Result Error (Unit {0})
validate_fields req =
    if is_empty req.code
    then err invalid_request
    else if is_empty req.redirect_uri
    then err invalid_request
    else if is_empty req.code_verifier
    then err invalid_request
    else ok tt

-- `codeRepo.Consume`: a code that is not found is an invalid grant.
unfoldable pub consume : Env → String → M AuthorizationCode
consume env raw = do
  at ← now env
  λ w.
      let (r, d) = consume_code at raw w.codes in
      (elim r [ ok c ↦ ok c | err _ ↦ err invalid_grant ], record w { codes = d })

-- `verifyPKCES256`
unfoldable pub verify_pkce : Env → String → String → Bool
verify_pkce env verifier challenge = env.s256 verifier == challenge

-- `verifyAuthCodeMatchesRequest`, at the time that its clock reading gives
unfoldable pub verify_match : Env → AuthorizationCode → GrantRequest → ℕ → Result Error (Unit {0})
unfolding verify_pkce
verify_match env code req at =
    if not (code.client_id == req.client_id)
    then err invalid_grant
    else if not (code.redirect_uri == req.redirect_uri)
    then err invalid_grant
    else if code_expired code at
    then err invalid_grant
    else if not (has_valid_pkce_method code)
    then err invalid_grant
    else if not (verify_pkce env req.code_verifier code.code_challenge)
    then err invalid_grant
    else ok tt

-- The access token that `issueTokens` builds: it stands for the user who approved the request.
abbrev pub code_token : Env → Client → AuthorizationCode → String → ℕ → String → Token
code_token env client code jkt at id = record no_token {
  id = id;
  client_id = client.id;
  subject = code.subject;
  scopes = code.scopes;
  roles = (fetch_permissions env code.subject).0;
  permissions = (fetch_permissions env code.subject).1;
  actor_type = actor_user;
  active_account_id = resolve_active_account env code.subject;
  authorization_details = code.authorization_details;
  acr = acr_password;
  jkt = jkt;
  expires_at = at + env.ttl;
  issued_at = at;
  token_type = dpop_token_type jkt;
}

-- `issueTokens`
unfoldable pub issue_tokens : Env → Client → AuthorizationCode → String → M GrantResponse
issue_tokens env client code jkt = do
  at ← now env
  id ← generate_id env
  raw ← issue_access env (code_token env client code jkt at id)
  refresh ← issue_refresh env client.id code.subject code.scopes at
  id_token ← maybe_id_token env client.id code raw at (resolve_active_account env code.subject)
  pure (record no_response {
    access_token = raw;
    id_token = id_token;
    token_type = dpop_token_type jkt;
    expires_in = env.ttl / second;
    refresh_token = refresh;
    scope = join code.scopes;
    actor_type = actor_user;
    subject = code.subject;
  })

-- `Handle`
unfoldable pub redeem_code : Env → GrantRequest → M GrantResponse
unfolding validate_fields consume
redeem_code env req = do
  lift (validate_fields req)
  client ← authenticate_client env req
  fail_if (not (has_grant_type client grant_authorization_code)) unauthorized_client
  code ← consume env req.code
  at ← now env
  lift (verify_match env code req at)
  issue_tokens env client code req.dpop_jkt
