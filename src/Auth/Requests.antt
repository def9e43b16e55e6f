-- ===== src/Auth/Requests.antt =====
-- services/auth-server/internal/domain: token requests and responses, and the requests that wait
-- at the authorize endpoint.
use identity_platform_go.Base.{ℕ, Bool, List, String, if◌then◌else◌, is_empty}
use identity_platform_go.Auth.Domain.{AuthorizationDetail, past, type_bearer, type_dpop}

pub record GrantRequest : Type 0 where
  pub grant_type : String
  pub client_id : String
  pub client_secret : String
  pub scopes : List String
  pub code : String
  pub code_verifier : String
  pub redirect_uri : String
  pub refresh_token : String
  pub device_code : String
  pub client_assertion : String
  pub client_assertion_type : String
  pub subject_token : String
  pub subject_token_type : String
  pub actor_token : String
  pub actor_token_type : String
  pub audience : List String
  pub requested_token_type : String
  pub authorization_details : List AuthorizationDetail
  pub dpop_jkt : String
  pub saml_assertion : String

pub record GrantResponse : Type 0 where
  pub access_token : String
  pub id_token : String
  pub token_type : String
  pub expires_in : ℕ
  pub scope : String
  pub refresh_token : String
  pub issued_token_type : String
  pub actor_type : String
  pub agent_id : String
  pub subject : String

-- The zero value `domain.GrantResponse{}`.
abbrev pub no_response : GrantResponse
no_response = record {
  access_token = "";
  id_token = "";
  token_type = "";
  expires_in = 0;
  scope = "";
  refresh_token = "";
  issued_token_type = "";
  actor_type = "";
  agent_id = "";
  subject = "";
}

-- `dpopTokenType`
unfoldable pub dpop_token_type : String → String
dpop_token_type jkt = if is_empty jkt then type_bearer else type_dpop

pub record LoginChallenge : Type 0 where
  pub id : String
  pub client_id : String
  pub redirect_uri : String
  pub scopes : List String
  pub state : String
  pub nonce : String
  pub code_challenge : String
  pub code_challenge_method : String
  pub prompt : List String
  pub max_age : ℕ
  pub acr_values : List String
  pub session_id : String
  pub consent_granted : List String
  pub authorization_details : List AuthorizationDetail
  pub created_at : ℕ
  pub expires_at : ℕ

unfoldable pub challenge_expired : LoginChallenge → ℕ → Bool
challenge_expired c now = past c.expires_at now

pub record PushedRequest : Type 0 where
  pub request_uri : String
  pub client_id : String
  pub response_type : String
  pub redirect_uri : String
  pub scope : String
  pub state : String
  pub nonce : String
  pub code_challenge : String
  pub code_challenge_method : String
  pub prompt : String
  pub max_age : String
  pub authorization_details : String
  pub created_at : ℕ
  pub expires_at : ℕ

unfoldable pub pushed_expired : PushedRequest → ℕ → Bool
pushed_expired p now = past p.expires_at now
