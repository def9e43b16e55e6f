-- ===== src/Auth/Http/Token.antt =====
-- POST /oauth/token (handler.go).
use identity_platform_go.Base.{
  Bool, Option, some, String, List, [], ◌∷◌, Result, ok, err, ◌>>=◌, ◌>>◌, or_fail, or_else,
  fail_if, pure, lift, not, ◌&&◌, ◌==◌, if◌then◌else◌, is_empty, unauthorized, forbidden,
}
use Prim.Native.String
use identity_platform_go.Base.Dict.{lookup}
use identity_platform_go.Base.Words.{fields}
use identity_platform_go.Auth.Domain.{
  Error, invalid_request, invalid_grant, unauthorized_client, unsupported_grant_type, device_poll,
  app, PollCode, authorization_pending, access_denied, expired_token, grant_token_exchange,
  grant_device_code,
}
use identity_platform_go.Auth.Requests.{GrantRequest}
use identity_platform_go.Auth.World.{Env}
use identity_platform_go.Auth.Details.{parse_details}
use identity_platform_go.Auth.Dpop.{validate_proof}
use identity_platform_go.Auth.Grants.Registry.{Strategy, grant}
use identity_platform_go.Auth.Http.Messages.{
  HttpRequest, Site, Handler, Reply, oauth_error, tokens, call, form_value, credentials,
  parse_scopes,
}
use identity_platform_go.Auth.Http.Throttle.{throttle}

-- `ClientAssertionTypeJWTBearer`
abbrev pub jwt_bearer : String
jwt_bearer = "urn:ietf:params:oauth:client-assertion-type:jwt-bearer"

-- `hasJWTBearerAssertion`
unfoldable pub has_jwt_bearer_assertion : HttpRequest → Bool
unfolding form_value
has_jwt_bearer_assertion r =
    form_value r "client_assertion_type" == jwt_bearer
    && not (is_empty (form_value r "client_assertion"))

-- `readGrantClientCredentials`
unfoldable pub read_credentials : HttpRequest → String → Result Reply (String × String)
unfolding has_jwt_bearer_assertion credentials
read_credentials r grant_type =
    if is_empty (credentials r).0
    then err (oauth_error 400 "invalid_request")
    else if is_empty (credentials r).1
        && not (grant_type == grant_token_exchange)
        && not (grant_type == grant_device_code)
        && not (has_jwt_bearer_assertion r)
    then err (oauth_error 400 "invalid_request")
    else ok (credentials r)

-- `parseExchangeAudience`
abbrev pub audience_values : List String → List String
audience_values [] = []
audience_values (v ∷ []) = fields v
audience_values (v ∷ w ∷ vs) = v ∷ w ∷ vs

unfoldable pub parse_audience : HttpRequest → List String
parse_audience r = audience_values (or_else [] (lookup "audience" (or_else [] r.form)))

-- `decodeSAMLAssertion`
unfoldable pub decode_assertion : Site → HttpRequest → Option String
unfolding form_value
decode_assertion site r =
    if is_empty (form_value r "assertion")
    then some ""
    else site.decode_base64 (form_value r "assertion")

-- `parseGrantRequest`
unfoldable pub parse_grant_request : Site → HttpRequest → Handler GrantRequest
unfolding read_credentials form_value parse_scopes parse_audience decode_assertion
parse_grant_request site r = do
  fail_if (is_empty (form_value r "grant_type")) (oauth_error 400 "invalid_request")
  c ← lift (read_credentials r (form_value r "grant_type"))
  details ←
      or_fail (parse_details site.json (form_value r "authorization_details"))
        (oauth_error 400 "invalid_authorization_details")
  saml ← or_fail (decode_assertion site r) (oauth_error 400 "invalid_request")
  pure (record {
    grant_type = form_value r "grant_type";
    client_id = c.0;
    client_secret = c.1;
    scopes = parse_scopes (form_value r "scope");
    code = form_value r "code";
    code_verifier = form_value r "code_verifier";
    redirect_uri = form_value r "redirect_uri";
    refresh_token = form_value r "refresh_token";
    device_code = form_value r "device_code";
    client_assertion = form_value r "client_assertion";
    client_assertion_type = form_value r "client_assertion_type";
    subject_token = form_value r "subject_token";
    subject_token_type = form_value r "subject_token_type";
    actor_token = form_value r "actor_token";
    actor_token_type = form_value r "actor_token_type";
    audience = parse_audience r;
    requested_token_type = form_value r "requested_token_type";
    authorization_details = details;
    dpop_jkt = "";
    saml_assertion = saml;
  })

-- `requestURL`
unfoldable pub request_url : HttpRequest → String
request_url r =
    let scheme =
      if not (is_empty r.forwarded_proto)
      then r.forwarded_proto
      else if r.tls
      then "https"
      else "http" in
    Prim.Native.String.◌++◌ scheme
      (Prim.Native.String.◌++◌ "://" (Prim.Native.String.◌++◌ r.host r.path))

-- The proof-of-possession step of `Token`: the thumbprint, empty without a DPoP header
unfoldable pub proof_of_possession : Env → Site → HttpRequest → Handler String
unfolding request_url
proof_of_possession env site r =
    if is_empty r.dpop
    then pure ""
    else call (validate_proof env site.parse_proof r.dpop "POST" (request_url r))
        (λ _. oauth_error 400 "invalid_dpop_proof")

abbrev pub poll_name : PollCode → String
poll_name authorization_pending = "authorization_pending"
poll_name access_denied = "access_denied"
poll_name expired_token = "expired_token"

-- `writeTokenError`, with `writeSentinelTokenError`
unfoldable pub token_error : Error → Reply
token_error unsupported_grant_type = oauth_error 400 "unsupported_grant_type"
token_error invalid_request = oauth_error 400 "invalid_request"
token_error (device_poll c) = oauth_error 400 (poll_name c)
token_error invalid_grant = oauth_error 400 "invalid_grant"
token_error unauthorized_client = oauth_error 400 "unauthorized_client"
token_error (app unauthorized) = oauth_error 401 "invalid_client"
token_error (app forbidden) = oauth_error 400 "invalid_scope"
token_error _ = oauth_error 500 "server_error"

-- `Token`, with the strategy for SAML assertions
unfoldable pub handle_token : Env → Site → Strategy → HttpRequest → Handler Reply
unfolding throttle parse_grant_request proof_of_possession token_error
handle_token env site saml r = do
  throttle env site r
  _ ← or_fail r.form (oauth_error 400 "invalid_request")
  req ← parse_grant_request site r
  jkt ← proof_of_possession env site r
  resp ← call (grant env saml (record req { dpop_jkt = jkt })) token_error
  pure (tokens resp)
