-- ===== src/Auth/Domain.antt =====
-- services/auth-server/internal/domain: the records of clients, codes, tokens and requests.
-- Go's defined string types (GrantType, ActorType, ClientType, TokenType) are texts here too. A
-- time is a number of nanoseconds since Go's zero time, and a duration a number of nanoseconds.
use identity_platform_go.Base.{
  ℕ, Bool, not, List, [], ◌∷◌, String, ◌==◌, ltb, suc, if◌then◌else◌, contains, ErrorCode, ◌||◌,
}

-- The error values by which callers branch. A wrapped error is classified by what it wraps, and an
-- error of apperrors by its code; the messages are left out.
pub data PollCode : Type 0 where
  authorization_pending access_denied expired_token : PollCode

pub data Error : Type 0 where
  invalid_request invalid_grant unauthorized_client unsupported_grant_type : Error
  token_not_found refresh_token_not_found code_not_found device_not_found : Error
  challenge_not_found pushed_request_not_found replayed client_not_found : Error
  invalid_token random_failed signing_failed audit_failed invalid_proof invalid_issue : Error
  device_poll : PollCode → Error
  app : ErrorCode → Error

abbrev pub grant_client_credentials : String
grant_client_credentials = "client_credentials"

abbrev pub grant_authorization_code : String
grant_authorization_code = "authorization_code"

abbrev pub grant_refresh_token : String
grant_refresh_token = "refresh_token"

abbrev pub grant_token_exchange : String
grant_token_exchange = "urn:ietf:params:oauth:grant-type:token-exchange"

abbrev pub grant_device_code : String
grant_device_code = "urn:ietf:params:oauth:grant-type:device_code"

abbrev pub urn_access_token : String
urn_access_token = "urn:ietf:params:oauth:token-type:access_token"

abbrev pub actor_user : String
actor_user = "user"

abbrev pub actor_service : String
actor_service = "service"

abbrev pub actor_agent : String
actor_agent = "agent"

abbrev pub type_bearer : String
type_bearer = "Bearer"

abbrev pub type_dpop : String
type_dpop = "DPoP"

abbrev pub client_type_public : String
client_type_public = "public"

abbrev pub acr_password : String
acr_password = "pwd"

pub record AuthorizationDetail : Type 0 where
  pub kind : String
  pub raw : String

pub record Client : Type 0 where
  pub id : String
  pub secret : String
  pub name : String
  pub kind : String
  pub actor_type : String
  pub scopes : List String
  pub redirect_uris : List String
  pub grant_types : List String
  pub jwks_uri : String
  pub trusted_issuer_cert : String

-- `ResolvedActorType`: an unknown value counts as a service.
unfoldable pub resolved_actor_type : Client → String
resolved_actor_type c =
    if (c.actor_type == actor_user) || (c.actor_type == actor_agent)
    then c.actor_type
    else actor_service

unfoldable pub agent_id : Client → String
unfolding resolved_actor_type
agent_id c = if resolved_actor_type c == actor_agent then c.id else ""

unfoldable pub is_public : Client → Bool
is_public c = c.kind == client_type_public

abbrev pub has_scope : Client → String → Bool
has_scope c = contains c.scopes

abbrev pub has_grant_type : Client → String → Bool
has_grant_type c = contains c.grant_types

abbrev pub has_redirect_uri : Client → String → Bool
has_redirect_uri c = contains c.redirect_uris

-- One hop of the delegation chain. The chain `*Actor`, linked by `Act`, is the list of its hops,
-- the most recent one first, and `nil` the empty list.
pub record Actor : Type 0 where
  pub sub : String
  pub actor_type : String
  pub agent_id : String
  pub client_id : String

unfoldable pub depth : List Actor → ℕ
depth [] = 0
depth (_ ∷ act) = suc (depth act)

pub record Token : Type 0 where
  pub id : String
  pub client_id : String
  pub subject : String
  pub issuer : String
  pub audience : List String
  pub scopes : List String
  pub roles : List String
  pub permissions : List String
  pub actor_type : String
  pub agent_id : String
  pub active_account_id : String
  pub act : List Actor
  pub authorization_details : List AuthorizationDetail
  pub acr : String
  pub jkt : String
  pub expires_at : ℕ
  pub issued_at : ℕ
  pub token_type : String
  pub raw : String

-- The zero value `domain.Token{}`, on which the composite literals set fields.
abbrev pub no_token : Token
no_token = record {
  id = "";
  client_id = "";
  subject = "";
  issuer = "";
  audience = [];
  scopes = [];
  roles = [];
  permissions = [];
  actor_type = "";
  agent_id = "";
  active_account_id = "";
  act = [];
  authorization_details = [];
  acr = "";
  jkt = "";
  expires_at = 0;
  issued_at = 0;
  token_type = "";
  raw = "";
}

-- `now.After(t.ExpiresAt)`: a token is good at the very instant of its expiry.
unfoldable pub token_expired : Token → ℕ → Bool
token_expired t now = ltb t.expires_at now

pub record RefreshToken : Type 0 where
  pub id : String
  pub raw : String
  pub client_id : String
  pub subject : String
  pub scopes : List String
  pub issued_at : ℕ
  pub expires_at : ℕ

pub record AuthorizationCode : Type 0 where
  pub code : String
  pub client_id : String
  pub subject : String
  pub redirect_uri : String
  pub scopes : List String
  pub code_challenge : String
  pub code_challenge_method : String
  pub nonce : String
  pub authorization_details : List AuthorizationDetail
  pub issued_at : ℕ
  pub expires_at : ℕ

-- `!now.Before(exp)`: codes, challenges, pushed and device requests are expired at the instant.
abbrev pub past : ℕ → ℕ → Bool
past exp now = not (ltb now exp)

unfoldable pub code_expired : AuthorizationCode → ℕ → Bool
code_expired c now = past c.expires_at now

unfoldable pub has_valid_pkce_method : AuthorizationCode → Bool
has_valid_pkce_method c = c.code_challenge_method == "S256"

pub data DeviceStatus : Type 0 where
  pending approved denied : DeviceStatus
  other : String → DeviceStatus

pub record DeviceAuthorization : Type 0 where
  pub device_code : String
  pub user_code : String
  pub client_id : String
  pub scope : String
  pub status : DeviceStatus
  pub subject : String
  pub interval : ℕ
  pub created_at : ℕ
  pub expires_at : ℕ

unfoldable pub device_expired : DeviceAuthorization → ℕ → Bool
device_expired d now = past d.expires_at now
