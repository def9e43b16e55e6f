-- ===== src/Auth/World.antt =====
-- What the auth-server's services share: the repositories' state, and what they call that is not in
-- this repository or is reached over the network.
use identity_platform_go.Base.{ℕ, Bool, Option, String, List, ok, Action, or_fail, suc}
use identity_platform_go.Base.Dict.{Dict}
use identity_platform_go.Auth.Domain.{
  Client, Token, RefreshToken, AuthorizationCode, Actor, Error, random_failed,
}
use identity_platform_go.Auth.Requests.{LoginChallenge, PushedRequest}
use identity_platform_go.Auth.Store.Devices.{Devices}

-- `jwtutil.ClaimsConfig` with the issuer's fields filled in, and what a parsed token gives back.
-- Numeric dates are kept in nanoseconds.
pub record Claims : Type 0 where
  pub issuer : String
  pub subject : String
  pub token_id : String
  pub client_id : String
  pub scope : String
  pub audience : List String
  pub roles : List String
  pub permissions : List String
  pub actor_type : String
  pub agent_id : String
  pub active_account_id : String
  pub act : List Actor
  pub authorization_details : List String
  pub issued_at : ℕ
  pub expires_at : ℕ

-- `application.IDTokenIssuance`. `email_verified` and `updated_at` are unset as `none` and 0.
pub record IdTokenIssuance : Type 0 where
  pub subject : String
  pub audience : String
  pub nonce : String
  pub at_hash : String
  pub auth_time : ℕ
  pub amr : List String
  pub email : String
  pub email_verified : Option Bool
  pub name : String
  pub updated_at : ℕ
  pub active_account_id : String
  pub plan_ids : List String
  pub issued_at : ℕ
  pub expires_at : ℕ

-- `ports.UserClaims`; `updated_at` is already a time.
pub record UserClaims : Type 0 where
  pub email : String
  pub email_verified : Bool
  pub name : String
  pub updated_at : ℕ

-- The registered claims of a client assertion whose signature is good.
pub record Assertion : Type 0 where
  pub issuer : String
  pub subject : String
  pub audience : List String
  pub expires_at : Option ℕ
  pub jti : String

-- The token_issued event, as far as it depends on the request. `attr_actor_type` is the attribute
-- `actor_type`.
pub record Event : Type 0 where
  pub actor_type : String
  pub attr_actor_type : String
  pub actor_id : String
  pub subject_id : String
  pub client_id : String
  pub grant_type : String
  pub scope : String
  pub expires_in : ℕ
  pub has_id_token : Bool
  pub has_refresh : Bool
  pub agent_id : String

-- What the strategies are constructed with. `none` is a port that is not wired (nil), and inside a
-- port's answer a failed call.
pub record Env : Type 0 where
  -- the n-th call of time.Now and of crypto/rand (in hex)
  pub clock : ℕ → ℕ
  pub random : ℕ → Option String
  pub rs256 : Bool
  pub issuer : String
  pub audience : List String
  pub sign_hs256 : Claims → Option String
  pub sign_rs256 : Claims → Option String
  -- the parsers of jwtutil at a time; the second also requires an issuer
  pub parse_hs256 : ℕ → String → Option Claims
  pub parse_hs256_issuer : ℕ → String → String → Option Claims
  pub parse_rs256 : ℕ → String → Option Claims
  -- the `type` member of a JSON object, empty where there is none
  pub json_type : String → String
  pub permissions : Option (String → Option (List String × List String))
  pub active_account : Option (String → Option String)
  pub user_plans : Option (String → String → Option (List String))
  pub user_claims : Option (String → Option UserClaims)
  pub sign_id_token : Option (IdTokenIssuance → Option String)
  -- base64url(sha256(·)) and the at_hash of OIDC
  pub s256 : String → String
  pub at_hash : String → String
  -- a client assertion that verifies against a JWKS URI at a time
  pub parse_assertion : Option (ℕ → String → String → Option Assertion)
  pub assertion_audience : String
  -- whether the n-th audit event is stored
  pub sink : ℕ → Bool
  pub ttl : ℕ
  pub refresh_ttl : ℕ
  pub id_token_ttl : ℕ
  pub code_ttl : ℕ
  pub max_depth : ℕ
  pub max_ttl : ℕ

pub record World : Type 0 where
  pub readings : ℕ
  pub draws : ℕ
  pub clients : Dict Client
  pub codes : Dict AuthorizationCode
  pub tokens : Dict Token
  pub refresh_tokens : Dict RefreshToken
  pub devices : Devices
  pub challenges : Dict LoginChallenge
  pub pushed : Dict PushedRequest
  pub assertion_jtis : Dict ℕ
  pub proof_jtis : Dict ℕ
  pub emissions : ℕ
  pub events : List Event

abbrev pub M : Type 0 → Type 0
M = Action World Error

-- `time.Now()`
unfoldable pub now : Env → M ℕ
now env w = (ok (env.clock w.readings), record w { readings = suc w.readings })

-- `rand.Read` and `hex.EncodeToString`, in generateID and generateAuthCode
unfoldable pub draw : Env → M String
draw env w = or_fail (env.random w.draws) random_failed (record w { draws = suc w.draws })

-- One second, in nanoseconds.
abbrev pub second : ℕ
second = 1_000_000_000
