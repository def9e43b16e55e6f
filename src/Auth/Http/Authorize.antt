-- ===== src/Auth/Http/Authorize.antt =====
-- GET /oauth/authorize and POST /oauth/par (handler.go).
use Prim.Native.Char.{code}
use Prim.Native.Nat.{◌%◌}
use Prim.Native.String
use identity_platform_go.Base.{
  ℕ, ◌+◌, ◌-◌, ◌*◌, ◌/◌, Bool, true, false, Option, none, some, String, List, [], Result, ok, err,
  ◌>>=◌, ◌>>◌, fail, fail_if, pure, modify, or_fail, not, ◌&&◌, ◌==◌, if◌then◌else◌, is_empty,
  contains, leb, or_else,
}
use identity_platform_go.Auth.Domain.{Client, AuthorizationDetail, Error}
use identity_platform_go.Auth.Requests.{LoginChallenge, PushedRequest}
use identity_platform_go.Auth.Store.{save_challenge, save_pushed, consume_pushed}
use identity_platform_go.Auth.World.{Env, M, now, draw, second}
use identity_platform_go.Auth.Clients.{authenticate, lookup_client}
use identity_platform_go.Auth.Details.{parse_details}
use identity_platform_go.Auth.Grants.ClientCredentials.{all_allowed}
use identity_platform_go.Auth.Http.Messages.{
  HttpRequest, Site, Handler, Reply, oauth_error, plain_error, redirect_error, to_sign_in, pushed,
  call, form_value, query_value, credentials, parse_scopes,
}

-- `authorizeRequest`
pub record AuthorizeRequest : Type 0 where
  pub response_type : String
  pub client_id : String
  pub redirect_uri : String
  pub scope : String
  pub state : String
  pub nonce : String
  pub code_challenge : String
  pub code_challenge_method : String
  pub prompt : String
  pub max_age : String
  pub acr_values : String
  pub authorization_details : String

-- `parseAuthorizeRequestFrom`
unfoldable pub parse_authorize_request : (String → String) → AuthorizeRequest
parse_authorize_request get = record {
  response_type = get "response_type";
  client_id = get "client_id";
  redirect_uri = get "redirect_uri";
  scope = get "scope";
  state = get "state";
  nonce = get "nonce";
  code_challenge = get "code_challenge";
  code_challenge_method = get "code_challenge_method";
  prompt = get "prompt";
  max_age = get "max_age";
  acr_values = get "acr_values";
  authorization_details = get "authorization_details";
}

-- `authorizeRequestFromPAR`
unfoldable pub request_of_pushed : PushedRequest → AuthorizeRequest
request_of_pushed p = record {
  response_type = p.response_type;
  client_id = p.client_id;
  redirect_uri = p.redirect_uri;
  scope = p.scope;
  state = p.state;
  nonce = p.nonce;
  code_challenge = p.code_challenge;
  code_challenge_method = p.code_challenge_method;
  prompt = p.prompt;
  max_age = p.max_age;
  acr_values = "";
  authorization_details = p.authorization_details;
}

-- `redirectURIMatches`
unfoldable pub redirect_uri_matches : List String → String → Bool
redirect_uri_matches registered presented =
    if is_empty presented then false else contains registered presented

-- `scopesAreSubset`: the map of the allowed scopes is their list.
unfoldable pub scopes_are_subset : List String → List String → Bool
scopes_are_subset requested allowed = all_allowed allowed requested

-- `validateAuthorizeParams`: the error code, empty where there is none
unfoldable pub validate_params : AuthorizeRequest → Client → String
validate_params req client =
    if not (req.response_type == "code")
    then "unsupported_response_type"
    else if is_empty req.code_challenge
    then "invalid_request"
    else if not (req.code_challenge_method == "S256")
    then "invalid_request"
    else if not (scopes_are_subset (parse_scopes req.scope) client.scopes)
    then "invalid_scope"
    else ""

-- The loop of `strconvAtoiSafe`. A Go int is kept as its 64 bits.
unfoldable pub digits_from : ℕ → String → Option ℕ
digits_from n String.[] = some n
digits_from n (String.◌∷◌ c s) = elim (leb 48 (code c) && leb (code c) 57) [
  | true ↦ digits_from ((n * 10 + (code c - 48)) % 18_446_744_073_709_551_616) s
  | false ↦ none
]

-- `maxAge, _ := strconvAtoiSafe(…)`: a text that is no number reads as 0.
unfoldable pub atoi : String → ℕ
unfolding digits_from
atoi s = or_else 0 (digits_from 0 s)

-- `redirectAuthorizeError`
unfoldable pub reject : Site → AuthorizeRequest → String → Reply
reject site req e =
    if site.url_parses req.redirect_uri
    then redirect_error req.redirect_uri req.state e
    else plain_error 400 e

-- The challenge that `persistChallengeAndRedirect` saves
abbrev pub new_challenge :
    Site → AuthorizeRequest → List AuthorizationDetail → String → ℕ → LoginChallenge
new_challenge site req details id at = record {
  id = id;
  client_id = req.client_id;
  redirect_uri = req.redirect_uri;
  scopes = parse_scopes req.scope;
  state = req.state;
  nonce = req.nonce;
  code_challenge = req.code_challenge;
  code_challenge_method = req.code_challenge_method;
  prompt = parse_scopes req.prompt;
  max_age = atoi req.max_age;
  acr_values = parse_scopes req.acr_values;
  session_id = "";
  consent_granted = [];
  authorization_details = details;
  created_at = at;
  expires_at = at + site.challenge_ttl;
}

-- A server error
abbrev pub server_error : Error → Reply
server_error _ = oauth_error 500 "server_error"

abbrev pub bad : String → Error → Reply
bad e _ = oauth_error 400 e

-- `persistChallengeAndRedirect`
unfoldable pub persist_challenge :
    Env → Site → AuthorizeRequest → List AuthorizationDetail → Handler Reply
unfolding save_challenge
persist_challenge env site req details = do
  id ← call (draw env) server_error
  at ← call (now env) server_error
  call
      (modify (λ w. record w {
        challenges = save_challenge (new_challenge site req details id at) w.challenges;
      }))
      server_error
  pure (to_sign_in id)

-- `validateAndPersistChallenge`
unfoldable pub validate_and_persist : Env → Site → AuthorizeRequest → Handler Reply
validate_and_persist env site req = do
  client ← call (lookup_client req.client_id) (bad "invalid_request")
  fail_if (not (redirect_uri_matches client.redirect_uris req.redirect_uri))
      (oauth_error 400 "invalid_request")
  fail_if (not (is_empty (validate_params req client)))
      (reject site req (validate_params req client))
  details ←
      or_fail (parse_details site.json req.authorization_details)
        (reject site req "invalid_authorization_details")
  persist_challenge env site req details

-- `PARRepo.Consume`
unfoldable pub take_pushed : Env → String → M PushedRequest
unfolding consume_pushed
take_pushed env uri = do
  t ← now env
  λ w. let (r, d) = consume_pushed t uri w.pushed in (r, record w { pushed = d })

-- `authorizeFromPushedRequest`
unfoldable pub authorize_pushed : Env → Site → String → String → Handler Reply
authorize_pushed env site uri client_id = do
  fail_if (is_empty client_id) (oauth_error 400 "invalid_request")
  p ← call (take_pushed env uri) (bad "invalid_request")
  fail_if (not (p.client_id == client_id)) (oauth_error 400 "invalid_request")
  validate_and_persist env site (request_of_pushed p)

-- `Authorize` without a request_uri
unfoldable pub authorize_direct : Env → Site → AuthorizeRequest → Handler Reply
authorize_direct env site req = do
  fail_if (is_empty req.client_id) (oauth_error 400 "invalid_request")
  validate_and_persist env site req

-- `Authorize`
unfoldable pub authorize : Env → Site → HttpRequest → Handler Reply
authorize env site r =
    if not site.authorize_wired
    then fail (plain_error 501 "")
    else if not (is_empty (query_value r "request_uri"))
    then authorize_pushed env site (query_value r "request_uri") (query_value r "client_id")
    else authorize_direct env site (parse_authorize_request (query_value r))

-- `validatePARRequest`
unfoldable pub validate_pushed : Site → AuthorizeRequest → Client → Result Reply (Unit {0})
validate_pushed site req client =
    if not (redirect_uri_matches client.redirect_uris req.redirect_uri)
    then err (oauth_error 400 "invalid_request")
    else if not (is_empty (validate_params req client))
    then err (oauth_error 400 (validate_params req client))
    else elim (parse_details site.json req.authorization_details) [
      | none ↦ err (oauth_error 400 "invalid_authorization_details")
      | some _ ↦ ok tt
    ]

-- The record that `savePARAndRespond` saves
abbrev pub new_pushed : Site → AuthorizeRequest → String → ℕ → PushedRequest
new_pushed site req uri at = record {
  request_uri = uri;
  client_id = req.client_id;
  response_type = req.response_type;
  redirect_uri = req.redirect_uri;
  scope = req.scope;
  state = req.state;
  nonce = req.nonce;
  code_challenge = req.code_challenge;
  code_challenge_method = req.code_challenge_method;
  prompt = req.prompt;
  max_age = req.max_age;
  authorization_details = req.authorization_details;
  created_at = at;
  expires_at = at + site.par_ttl;
}

-- `savePARAndRespond`
unfoldable pub save_pushed_request : Env → Site → AuthorizeRequest → Handler Reply
unfolding save_pushed
save_pushed_request env site req = do
  id ← call (draw env) server_error
  at ← call (now env) server_error
  let uri = Prim.Native.String.◌++◌ "urn:ietf:params:oauth:request_uri:" id
  call (modify (λ w. record w { pushed = save_pushed (new_pushed site req uri at) w.pushed }))
      server_error
  pure (pushed uri (site.par_ttl / second))

-- `PushAuthorize`: the authenticated client is the one of the request.
unfoldable pub push_authorize : Env → Site → HttpRequest → Handler Reply
push_authorize env site r = do
  fail_if (not site.authorize_wired) (plain_error 501 "")
  _ ← or_fail r.form (oauth_error 400 "invalid_request")
  fail_if (is_empty (credentials r).0) (oauth_error 400 "invalid_request")
  client ←
      call (authenticate (credentials r).0 (credentials r).1)
        (λ _. oauth_error 401 "invalid_client")
  let req = record (parse_authorize_request (form_value r)) { client_id = (credentials r).0 }
  _ ← λ s. (validate_pushed site req client, s)
  save_pushed_request env site req
