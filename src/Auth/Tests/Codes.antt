-- ===== src/Auth/Tests/Codes.antt =====
-- A code redeemed, and tried again.
use identity_platform_go.Base.{◌>>=◌, ◌≡◌, refl, ok, err, contains, none, true, some, [], ◌∷◌, ◌*◌}
use identity_platform_go.Base.Dict.{lookup}
use identity_platform_go.Auth.Domain.{Client, Error, code_expired, has_valid_pkce_method}
use identity_platform_go.Auth.Requests.{GrantRequest, GrantResponse, no_response}
use identity_platform_go.Auth.World.{Env, World, Assertion, now, second}
use identity_platform_go.Auth.Store.{consume_code}
use identity_platform_go.Auth.Clients.{authenticate_client}
use identity_platform_go.Auth.Clients.Proofs.{authenticate_client_sound, Authentic}
use identity_platform_go.Auth.Tokens.{generate, generate_id, issue_access, issue_refresh}
use identity_platform_go.Auth.Grants.IdToken.{maybe_id_token}
use identity_platform_go.Auth.Grants.Code.{redeem_code, verify_match, issue_tokens, validate_fields}
use identity_platform_go.Auth.Grants.Code.Once.{
  Redeemed, redeem_code_sound, redeem_code-replay, redeem_code-burns,
}
use identity_platform_go.Auth.Tests.Setting.{env, world, web, request, answer}

abbrev response : GrantResponse
response = answer no_response (redeem_code env request world)

abbrev after : World
after = (redeem_code env request world).1

redeemed : redeem_code env request world ≡ (ok response, after)
unfolding redeem_code ◌>>=◌ authenticate_client lookup contains now consume_code code_expired
    verify_match has_valid_pkce_method issue_tokens generate_id issue_access generate issue_refresh
    maybe_id_token
redeemed = refl

redeem_code_sound_example : Redeemed env request world after response
redeem_code_sound_example = redeem_code_sound env request world after response redeemed

redeem_code-replay_example :
    ((e : Error) × ((redeem_code env request after).0 ≡ err e))
    × ((redeem_code env request after).1.tokens ≡ after.tokens)
    × ((redeem_code env request after).1.refresh_tokens ≡ after.refresh_tokens)
redeem_code-replay_example =
    redeem_code-replay env request world after response request redeemed refl

-- The same request with another verifier, which is refused.
abbrev guess : GrantRequest
guess = record request { code_verifier = "w" }

guess_fields : validate_fields guess ≡ ok tt
unfolding validate_fields
guess_fields = refl

guess_client : (authenticate_client env guess world).0 ≡ ok web
unfolding authenticate_client lookup
guess_client = refl

web_granted : contains web.grant_types "authorization_code" ≡ true
unfolding contains
web_granted = refl

redeem_code-burns_example : lookup "c" (redeem_code env guess world).1.codes ≡ none
redeem_code-burns_example =
    redeem_code-burns env guess world web guess_fields guess_client web_granted

-- A client with a registered JWKS URI, and a parser that accepts its assertions
abbrev keyholder : Client
keyholder = record web { jwks_uri = "https://web/jwks" }

abbrev presented : Assertion
presented = record {
  issuer = "web";
  subject = "web";
  audience = "idp" ∷ [];
  expires_at = some (50 * second);
  jti = "j";
}

abbrev verifying : Env
verifying = record env {
  parse_assertion = some (λ t assertion uri. some presented);
  assertion_audience = "idp";
}

abbrev provisioned : World
provisioned = record world { clients = ("web", keyholder) ∷ [] }

abbrev signing : GrantRequest
signing = record request { client_secret = ""; client_assertion = "signed" }

abbrev identified : World
identified = (authenticate_client verifying signing provisioned).1

authenticated : authenticate_client verifying signing provisioned ≡ (ok keyholder, identified)
unfolding authenticate_client ◌>>=◌ lookup now contains
    identity_platform_go.Auth.Store.mark_assertion
authenticated = refl

authenticate_client_sound_example :
    (lookup "web" provisioned.clients ≡ some keyholder)
    × Authentic verifying keyholder provisioned identified signing
authenticate_client_sound_example =
    authenticate_client_sound verifying signing provisioned identified keyholder authenticated
