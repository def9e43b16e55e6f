-- ===== src/Auth/Tests/Setting.antt =====
-- A small deployment: two clients, one stored code, one refresh token, one device request.
use Prim.Native.Nat.{compare, Ordering}
use identity_platform_go.Base.{
  ℕ, ◌+◌, ◌*◌, Bool, true, false, none, some, [], ◌∷◌, Result, ok, err, if◌then◌else◌,
}
use identity_platform_go.Auth.Domain.{
  Client, AuthorizationCode, RefreshToken, DeviceAuthorization, approved, grant_authorization_code,
  grant_client_credentials, grant_token_exchange, grant_device_code, grant_refresh_token,
  urn_access_token,
}
use identity_platform_go.Auth.Requests.{GrantRequest}
use identity_platform_go.Auth.World.{Env, World, Claims, second}

abbrev pub some_claims : Claims
some_claims = record {
  issuer = "idp";
  subject = "ann";
  token_id = "t";
  client_id = "web";
  scope = "read write";
  audience = [];
  roles = [];
  permissions = [];
  actor_type = "user";
  agent_id = "";
  active_account_id = "";
  act = [];
  authorization_details = [];
  issued_at = 0;
  expires_at = 100 * second;
}

abbrev pub env : Env
env = record {
  clock = λ n. 10 * second + n;
  random = λ n. if n_is n 0 then some "r0" else if n_is n 1 then some "r1" else some "r2";
  rs256 = true;
  issuer = "idp";
  audience = [];
  sign_hs256 = λ c. some "signed";
  sign_rs256 = λ c. some "signed";
  parse_hs256 = λ t raw. some some_claims;
  parse_hs256_issuer = λ t i raw. some some_claims;
  parse_rs256 = λ t raw. some some_claims;
  json_type = λ raw. raw;
  permissions = none;
  active_account = none;
  user_plans = none;
  user_claims = none;
  sign_id_token = none;
  s256 = λ v. v;
  at_hash = λ v. v;
  parse_assertion = none;
  assertion_audience = "";
  sink = λ n. true;
  ttl = 60 * second;
  refresh_ttl = 600 * second;
  id_token_ttl = 60 * second;
  code_ttl = 60 * second;
  max_depth = 3;
  max_ttl = 30 * second;
}
  where
    n_is : ℕ → ℕ → Bool
    n_is a b = elim (compare a b) [ Ordering.eq ↦ true | _ ↦ false ]

abbrev pub web : Client
web = record {
  id = "web";
  secret = "s";
  name = "Web";
  kind = "confidential";
  actor_type = "agent";
  scopes = "read" ∷ "write" ∷ [];
  redirect_uris = "https://web" ∷ [];
  grant_types =
      grant_authorization_code ∷ grant_client_credentials ∷ grant_token_exchange ∷ grant_device_code
      ∷ grant_refresh_token ∷ [];
  jwks_uri = "";
  trusted_issuer_cert = "";
}

abbrev pub code : AuthorizationCode
code = record {
  code = "c";
  client_id = "web";
  subject = "ann";
  redirect_uri = "https://web";
  scopes = "read" ∷ [];
  code_challenge = "v";
  code_challenge_method = "S256";
  nonce = "";
  authorization_details = [];
  issued_at = 0;
  expires_at = 50 * second;
}

abbrev pub old_refresh : RefreshToken
old_refresh = record {
  id = "i";
  raw = "old";
  client_id = "web";
  subject = "ann";
  scopes = "read" ∷ [];
  issued_at = 0;
  expires_at = 50 * second;
}

abbrev pub device : DeviceAuthorization
device = record {
  device_code = "d";
  user_code = "u";
  client_id = "web";
  scope = "read write";
  status = approved;
  subject = "ann";
  interval = 5;
  created_at = 0;
  expires_at = 50 * second;
}

abbrev pub world : World
world = record {
  readings = 0;
  draws = 0;
  clients = ("web", web) ∷ [];
  codes = ("c", code) ∷ [];
  tokens = [];
  refresh_tokens = ("old", old_refresh) ∷ [];
  devices = record { by_device_code = ("d", device) ∷ []; user_code_index = ("u", "d") ∷ [] };
  challenges = [];
  pushed = [];
  assertion_jtis = [];
  proof_jtis = [];
  emissions = 0;
  events = [];
}

abbrev pub request : GrantRequest
request = record {
  grant_type = grant_authorization_code;
  client_id = "web";
  client_secret = "s";
  scopes = [];
  code = "c";
  code_verifier = "v";
  redirect_uri = "https://web";
  refresh_token = "old";
  device_code = "d";
  client_assertion = "";
  client_assertion_type = "";
  subject_token = "signed";
  subject_token_type = urn_access_token;
  actor_token = "";
  actor_token_type = "";
  audience = [];
  requested_token_type = "";
  authorization_details = [];
  dpop_jkt = "";
  saml_assertion = "";
}

-- The value of a run that succeeded.
abbrev pub answer {ℓ} : {E S A : Type ℓ} → A → Result E A × S → A
answer d r = elim r.0 [ ok a ↦ a | err _ ↦ d ]
