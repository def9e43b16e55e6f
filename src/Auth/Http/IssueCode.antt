-- ===== src/Auth/Http/IssueCode.antt =====
-- POST /internal/issue-code (handler.go): login-ui exchanges a login challenge for a code.
use identity_platform_go.Base.{
  Bool, String, List, [], ◌∷◌, ◌>>=◌, ◌>>◌, or_fail, fail_if, pure, not, ◌&&◌, ◌||◌, is_empty,
}
use identity_platform_go.Auth.Requests.{LoginChallenge}
use identity_platform_go.Auth.Store.{consume_challenge}
use identity_platform_go.Auth.World.{Env, M, now}
use identity_platform_go.Auth.Grants.Code.{IssueRequest, issue_code}
use identity_platform_go.Auth.Http.Messages.{
  HttpRequest, Site, Handler, IssueCodeBody, Reply, oauth_error, plain_error, code_issued, call,
  has_bearer,
}
use identity_platform_go.Auth.Http.Authorize.{scopes_are_subset, bad, server_error}

-- `issueCodeEnabled`
unfoldable pub issue_code_enabled : Site → Bool
issue_code_enabled site =
    site.authorize_wired && not (is_empty site.issue_code_bearer) && site.issuer_wired

-- `decodeIssueCodeBody`
unfoldable pub decode_issue_body : Site → HttpRequest → Handler IssueCodeBody
decode_issue_body site r = do
  body ← or_fail (site.decode_issue r.body) (oauth_error 400 "invalid_request")
  fail_if (is_empty body.login_challenge || is_empty body.session_id)
      (oauth_error 400 "invalid_request")
  pure body

-- `ChallengeRepo.Consume`
unfoldable pub take_challenge : Env → String → M LoginChallenge
unfolding consume_challenge
take_challenge env id = do
  t ← now env
  λ w. let (r, d) = consume_challenge t id w.challenges in (r, record w { challenges = d })

abbrev pub granted_scopes : List String → List String → List String
granted_scopes [] requested = requested
granted_scopes (x ∷ xs) requested = x ∷ xs

-- The request that `mintAndRespond` makes of a challenge
abbrev pub mint_request : LoginChallenge → IssueCodeBody → IssueRequest
mint_request challenge body = record {
  client_id = challenge.client_id;
  subject = body.session_id;
  redirect_uri = challenge.redirect_uri;
  scopes = granted_scopes body.consent_granted challenge.scopes;
  code_challenge = challenge.code_challenge;
  code_challenge_method = challenge.code_challenge_method;
  nonce = challenge.nonce;
  authorization_details = challenge.authorization_details;
}

-- `mintAndRespond`
unfoldable pub mint_and_respond : Env → Site → LoginChallenge → IssueCodeBody → Handler Reply
mint_and_respond env site challenge body = do
  code ← call (issue_code env (mint_request challenge body)) server_error
  pure (code_issued code challenge.redirect_uri challenge.state site.issuer)

-- `IssueCode`
unfoldable pub handle_issue_code : Env → Site → HttpRequest → Handler Reply
unfolding issue_code_enabled has_bearer
handle_issue_code env site r = do
  fail_if (not (issue_code_enabled site)) (plain_error 404 "")
  fail_if (not (has_bearer site.issue_code_bearer r)) (oauth_error 401 "invalid_client")
  body ← decode_issue_body site r
  challenge ← call (take_challenge env body.login_challenge) (bad "invalid_request")
  fail_if (not (scopes_are_subset body.consent_granted challenge.scopes))
      (oauth_error 400 "invalid_request")
  mint_and_respond env site challenge body
