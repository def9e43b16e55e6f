-- ===== src/Auth/Tests/Flow.antt =====
-- A code from the authorize endpoint to its redemption.
use identity_platform_go.Base.{◌>>=◌, ◌*◌, ◌≡◌, refl, true, none, some, [], ◌∷◌, ok, contains}
use identity_platform_go.Base.Dict.{lookup, insert}
use identity_platform_go.Auth.Requests.{GrantRequest, GrantResponse, no_response}
use identity_platform_go.Auth.World.{World, second}
use identity_platform_go.Auth.Grants.Saml.{Saml}
use identity_platform_go.Auth.Grants.Code.{redeem_code}
use identity_platform_go.Auth.Http.Messages.{HttpRequest, Site, Server}
use identity_platform_go.Auth.Http.Authorize.{authorize}
use identity_platform_go.Auth.Http.IssueCode.{handle_issue_code}
use identity_platform_go.Auth.Http.Flow.{
  authorizes, issues, Reach, here, next, Reach-Grounded, Within, redeemed-Within,
}
use identity_platform_go.Auth.Http.Flow.Handlers.{Grounded}
use identity_platform_go.Base.Words.{fields}
use identity_platform_go.Auth.Domain.{code_expired, has_valid_pkce_method}
use identity_platform_go.Auth.World.{now, draw}
use identity_platform_go.Auth.Store.{consume_code}
use identity_platform_go.Auth.Details.{parse_details}
use identity_platform_go.Auth.Clients.{authenticate_client, lookup_client}
use identity_platform_go.Auth.Tokens.{generate, generate_id, issue_access, issue_refresh}
use identity_platform_go.Auth.Grants.IdToken.{maybe_id_token}
use identity_platform_go.Auth.Grants.ClientCredentials.{all_allowed}
use identity_platform_go.Auth.Grants.Code.{verify_match, issue_tokens, validate_fields, issue_code}
use identity_platform_go.Auth.Http.Messages.{call, query_value, parse_scopes, has_bearer}
use identity_platform_go.Auth.Http.Authorize.{
  authorize_direct, parse_authorize_request, validate_and_persist, redirect_uri_matches,
  validate_params, scopes_are_subset, persist_challenge, atoi,
}
use identity_platform_go.Auth.Http.IssueCode.{
  decode_issue_body, take_challenge, mint_and_respond, issue_code_enabled,
}
use identity_platform_go.Auth.Tests.Setting.{env, world, request, answer}

abbrev pub site : Site
site = record {
  authorize_wired = true;
  issuer_wired = true;
  issue_code_bearer = "k";
  challenge_ttl = 60 * second;
  par_ttl = 60 * second;
  issuer = "idp";
  introspection_secret = "i";
  device_ttl = 60 * second;
  device_interval = 5;
  device_token = "k";
  max_requests = 2;
  window = 60 * second;
  url_parses = λ u. true;
  decode_base64 = some;
  decode_issue =
      λ b. some (record { login_challenge = b; session_id = "ann"; consent_granted = [] });
  decode_decision = λ b. none;
  random_bytes = λ n. none;
  json = record {
    elements = λ s. some [];
    head = λ s. none;
    mcp_tool = λ s. none;
    resource = λ s. none;
  };
  parse_proof = λ raw. none;
}

abbrev pub saml : Saml
saml = record {
  is_certificate = λ c. true;
  parse = λ x. none;
  signed = λ x c. true;
  endpoint = "e";
}

abbrev pub server : Server
server = record { world = record world { codes = [] }; buckets = []; events = [] }

abbrev pub plain : HttpRequest
plain = record {
  remote_addr = "1:2";
  query = [];
  form = some [];
  basic_auth = none;
  authorization = "Bearer i";
  dpop = "";
  tls = true;
  forwarded_proto = "";
  host = "as";
  path = "/oauth";
  body = "";
}

abbrev asking : HttpRequest
asking = record plain {
  query =
      ("response_type", "code" ∷ [])
      ∷ ("client_id", "web" ∷ [])
      ∷ ("redirect_uri", "https://web" ∷ [])
      ∷ ("scope", "read" ∷ [])
      ∷ ("code_challenge", "v" ∷ [])
      ∷ ("code_challenge_method", "S256" ∷ [])
      ∷ [];
}

abbrev minting : HttpRequest
minting = record plain { authorization = "Bearer k"; body = "r0" }

abbrev asked : Server
asked = (authorize env site asking server).1

abbrev minted : Server
minted = (handle_issue_code env site minting asked).1

abbrev path : Reach env site saml server minted
path = next (next here (authorizes asking server)) (issues minting asked)

grounded : Grounded server.world.clients server
grounded = (refl, tt, tt)

Reach-Grounded_example : Grounded server.world.clients minted
Reach-Grounded_example = Reach-Grounded path grounded

abbrev redeeming : GrantRequest
redeeming = record request { code = "r1" }

abbrev response : GrantResponse
response = answer no_response (redeem_code env redeeming minted.world)

abbrev after : World
after = (redeem_code env redeeming minted.world).1

redeemed : redeem_code env redeeming minted.world ≡ (ok response, after)
unfolding redeem_code ◌>>=◌ authenticate_client lookup handle_issue_code decode_issue_body call
    take_challenge now authorize query_value authorize_direct parse_authorize_request
    validate_and_persist redirect_uri_matches contains validate_params scopes_are_subset
    parse_scopes all_allowed fields lookup_client parse_details persist_challenge draw atoi
    mint_and_respond issue_code has_bearer issue_code_enabled validate_fields consume_code
    code_expired verify_match has_valid_pkce_method issue_tokens generate_id issue_access generate
    issue_refresh maybe_id_token insert identity_platform_go.Auth.Requests.challenge_expired
redeemed = refl

redeemed-Within_example : Within server.world.clients redeeming after response
redeemed-Within_example = redeemed-Within path grounded redeeming after response redeemed
