-- ===== src/Auth/Tokens/RoundTrip.antt =====
-- A token that is generated and then validated (token_service.go, rs256_token.go).
use identity_platform_go.Base.{
  ℕ, ◌/◌, ◌*◌, ◌<◌, ◌≡◌, false, Option, some, String, List, [], ok, arith, All, map, is_empty,
}
use identity_platform_go.Base.Words.{fields-join, IsField}
use identity_platform_go.Auth.Domain.{Token, AuthorizationDetail, type_bearer}
use identity_platform_go.Auth.World.{Env, Claims, second}
use identity_platform_go.Auth.Tokens.{
  generate, claims_rs256, claims_hs256, validate_hs256, token_of_hs256,
}

-- A JWT's dates are whole seconds.
abbrev pub whole : ℕ → ℕ
whole t = t / second * second

abbrev pub on_wire : Claims → Claims
on_wire c = record c { issued_at = whole c.issued_at; expires_at = whole c.expires_at }

-- `jwtutil`'s parser gives back the claims `c` of a token that was signed with its key, until the
-- token expires.
pub record Verifies (sign : Claims → Option String) (parse : ℕ → String → Option Claims)
    (c : Claims) : Type 0 where
  pub parsed :
      (raw : String) (now : ℕ)
      → sign c ≡ some raw
      → now < whole c.expires_at
      → parse now raw ≡ some (on_wire c)

-- The claims after the encoder of encoding/json, which compacts and escapes a json.RawMessage
abbrev pub encoded : (String → String) → Claims → Claims
encoded compact c = record (on_wire c) {
  authorization_details = map compact c.authorization_details;
}

-- The same of RS256, whose claims carry the authorization details: they come back as the encoder
-- `compact` of JSON has written them.
pub record VerifiesEncoded (compact : String → String) (sign : Claims → Option String)
    (parse : ℕ → String → Option Claims) (c : Claims) : Type 0 where
  pub parsed :
      (raw : String) (now : ℕ)
      → sign c ≡ some raw
      → now < whole c.expires_at
      → parse now raw ≡ some (encoded compact c)

-- The details of a token that was parsed from JSON, whose encoder keeps the value of `type`.
abbrev pub WellTyped : Env → (String → String) → List AuthorizationDetail → Type 0
WellTyped env compact = All (λ d. env.json_type (compact d.raw) ≡ d.kind)

-- The details as they are read back: each of its kind, with the text that the encoder wrote.
abbrev pub recoded : (String → String) → List AuthorizationDetail → List AuthorizationDetail
recoded compact = map (λ d. record { kind = d.kind; raw = compact d.raw })

-- What is left of a token: the roles, permissions, acr, key thumbprint and token type are not read
-- back, the issuer and audience are the server's, and the details are re-encoded.
abbrev pub received_rs256 : Env → (String → String) → Token → String → Token
received_rs256 env compact t raw = record t {
  authorization_details = recoded compact t.authorization_details;
  issuer = env.issuer;
  audience = env.audience;
  roles = [];
  permissions = [];
  acr = "";
  jkt = "";
  issued_at = whole t.issued_at;
  expires_at = whole t.expires_at;
  token_type = type_bearer;
  raw = raw;
}

-- In HS256 mode the delegation chain and the authorization details are lost as well.
abbrev pub received_hs256 : Env → Token → String → Token
received_hs256 env t raw = record (received_rs256 env (λ d. d) t raw) {
  act = [];
  authorization_details = [];
}

token_of_hs256-claims :
    (env : Env) (t : Token) (raw : String)
    → All IsField t.scopes
    → token_of_hs256 raw (on_wire (claims_hs256 env t)) ≡ received_hs256 env t raw
unfolding token_of_hs256 claims_hs256 claims_rs256
token_of_hs256-claims env t raw h = let scopes = fields-join t.scopes h in ground arith

-- With HS256 and an issuer configured, an unexpired token whose scopes are words is read back
-- without its chain and its details.
pub validate_hs256-generate :
    (env : Env) (t : Token) (raw : String) (now : ℕ)
    → Verifies env.sign_hs256 (λ at. env.parse_hs256_issuer at env.issuer) (claims_hs256 env t)
    → env.rs256 ≡ false
    → is_empty env.issuer ≡ false
    → generate env t ≡ some raw
    → All IsField t.scopes
    → now < whole t.expires_at
    → validate_hs256 env raw now ≡ ok (received_hs256 env t raw)
unfolding validate_hs256 generate claims_hs256 claims_rs256
validate_hs256-generate env t raw now verifies mode issuer made words live =
    let signed : env.sign_hs256 (claims_hs256 env t) ≡ some raw = ground arith in
    let parsed = verifies.parsed raw now signed live in
    let read = token_of_hs256-claims env t raw words in ground arith
