-- ===== src/Auth/TokenService.antt =====
-- TokenService of token_service.go: introspection and revocation of access tokens.
pub mod Revocation
use identity_platform_go.Base.{
  ℕ, suc, Bool, true, false, Option, none, some, String, List, [], Result, ok, err, ◌>>=◌, ◌>>◌,
  pure, if◌then◌else◌, is_empty,
}
use identity_platform_go.Base.Words.{join}
use identity_platform_go.Auth.Domain.{Token, Error, token_expired, AuthorizationDetail}
use identity_platform_go.Auth.Store.{find_token, delete_token, delete_refresh}
use identity_platform_go.Auth.World.{Env, World, M, now}
use identity_platform_go.Auth.Tokens.{validate, to_raw}

-- `domain.IntrospectResponse`; times are kept in nanoseconds.
pub record Introspection : Type 0 where
  pub active : Bool
  pub client_id : String
  pub subject : String
  pub issuer : String
  pub scope : String
  pub expires_at : ℕ
  pub issued_at : ℕ
  pub token_type : String
  pub jti : String
  pub audience : List String
  pub authorization_details : List String
  pub acr : String
  pub cnf : Option String

abbrev pub inactive : Introspection
inactive = record {
  active = false;
  client_id = "";
  subject = "";
  issuer = "";
  scope = "";
  expires_at = 0;
  issued_at = 0;
  token_type = "";
  jti = "";
  audience = [];
  authorization_details = [];
  acr = "";
  cnf = none;
}

-- The answer for a token that is active: the claims of the JWT, and what only the store knows.
unfoldable pub described : Token → Token → Introspection
described token stored = record {
  active = true;
  client_id = token.client_id;
  subject = token.subject;
  issuer = token.issuer;
  scope = join token.scopes;
  expires_at = token.expires_at;
  issued_at = token.issued_at;
  token_type = stored.token_type;
  jti = token.id;
  audience = token.audience;
  authorization_details = to_raw token.authorization_details;
  acr = stored.acr;
  cnf = if is_empty stored.jkt then none else some stored.jkt;
}

-- `Introspect`. No call here fails but by a token that is not valid.
unfoldable pub introspect : Env → String → World → Introspection × World
introspect env raw w =
    let (r, w₁) = validate env raw w in
    elim r [
      | err _ ↦ (inactive, w₁)
      | ok token ↦
          let w₂ : World = record w₁ { readings = suc w₁.readings } in
          if token_expired token (env.clock w₁.readings)
          then (inactive, w₂)
          else elim (find_token raw w₂.tokens) [
            | err _ ↦ (inactive, w₂)
            | ok stored ↦ (described token stored, w₂)
          ]
    ]

-- `Revoke`: a token that neither store has is no error.
unfoldable pub revoke : String → World → World
revoke raw w = record w {
  tokens = (delete_token raw w.tokens).1;
  refresh_tokens = (delete_refresh raw w.refresh_tokens).1;
}
