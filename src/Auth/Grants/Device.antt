-- ===== src/Auth/Grants/Device.antt =====
-- device_code_strategy.go: polling for the tokens of a device request.
pub mod Polls
use identity_platform_go.Base.{
  ℕ, ◌+◌, ◌/◌, Bool, String, List, Result, ok, err, ◌>>=◌, ◌>>◌, fail_if, fail, pure, not, ◌==◌,
  if◌then◌else◌, forbidden, is_empty,
}
use identity_platform_go.Base.Words.{fields}
use identity_platform_go.Auth.Domain.{
  Client, Error, app, Token, no_token, actor_user, type_bearer, device_poll, expired_token,
  authorization_pending, access_denied, DeviceAuthorization, pending, approved, denied, other,
  has_grant_type, grant_device_code, invalid_request,
}
use identity_platform_go.Auth.Requests.{GrantRequest, GrantResponse, no_response}
use identity_platform_go.Auth.Store.Devices.{find_by_device_code, consume_device}
use identity_platform_go.Auth.World.{Env, World, M, now, second}
use identity_platform_go.Auth.Clients.{authenticate}
use identity_platform_go.Auth.Tokens.{generate_id, issue_access, issue_refresh, fetch_permissions}

-- `validateClient`
unfoldable pub validate_device_client : GrantRequest → M Client
validate_device_client req = do
  client ← authenticate req.client_id req.client_secret
  fail_if (not (has_grant_type client grant_device_code)) (app forbidden)
  pure client

-- `findOwnedDeviceAuth`: a request of another client reads as one that has expired.
unfoldable pub find_owned : Env → String → String → M DeviceAuthorization
unfolding find_by_device_code
find_owned env device_code client_id = do
  t ← now env
  λ w. elim (find_by_device_code t device_code w.devices) [
    | err _ ↦ (err (device_poll expired_token), w)
    | ok a ↦ (if not (a.client_id == client_id) then err (device_poll expired_token) else ok a, w)
  ]

-- `deviceAuthRepo.Consume` and its error
unfoldable pub redeem_device : Env → String → M DeviceAuthorization
unfolding consume_device
redeem_device env device_code = do
  t ← now env
  λ w.
      let (r, d) = consume_device t device_code w.devices in
      (elim r [ ok a ↦ ok a | err _ ↦ err (device_poll expired_token) ], record w { devices = d })

-- The access token that `issueAccessToken` builds.
abbrev pub device_token : Env → Client → DeviceAuthorization → ℕ → String → Token
device_token env client a at id = record no_token {
  id = id;
  client_id = client.id;
  subject = a.subject;
  scopes = fields a.scope;
  roles = (fetch_permissions env a.subject).0;
  permissions = (fetch_permissions env a.subject).1;
  actor_type = actor_user;
  expires_at = at + env.ttl;
  issued_at = at;
  token_type = type_bearer;
}

abbrev pub device_response : Env → DeviceAuthorization → String → String → GrantResponse
device_response env a raw refresh = record no_response {
  access_token = raw;
  token_type = type_bearer;
  expires_in = env.ttl / second;
  refresh_token = refresh;
  scope = a.scope;
  actor_type = actor_user;
  subject = a.subject;
}

-- `issueForApproved`, with `issueAccessToken` and `issueRefreshToken`
unfoldable pub issue_for_approved : Env → String → Client → M GrantResponse
issue_for_approved env device_code client = do
  a ← redeem_device env device_code
  at ← now env
  id ← generate_id env
  raw ← issue_access env (device_token env client a at id)
  refresh ← issue_refresh env client.id a.subject (fields a.scope) at
  pure (device_response env a raw refresh)

-- `resolveStatus`
unfoldable pub resolve_status : Env → DeviceAuthorization → Client → M GrantResponse
resolve_status env a client = elim a.status [
  | pending ↦ fail (device_poll authorization_pending)
  | denied ↦ fail (device_poll access_denied)
  | approved ↦ issue_for_approved env a.device_code client
  | other _ ↦ fail (device_poll expired_token)
]

-- `Handle`
unfoldable pub poll_device : Env → GrantRequest → M GrantResponse
poll_device env req = do
  fail_if (is_empty req.device_code) invalid_request
  client ← validate_device_client req
  a ← find_owned env req.device_code client.id
  resolve_status env a client
