-- ===== src/Auth/Http/DeviceEndpoint.antt =====
-- POST /device_authorization and POST /internal/device/decision (device_authorization.go).
use Prim.Native.Nat.{◌%◌}
use Prim.Native.String
use identity_platform_go.Base.{
  ℕ, zero, suc, ◌+◌, ◌/◌, none, some, String, List, [], ◌∷◌, ◌>>=◌, ◌>>◌, or_fail, fail_if, pure,
  modify, not, ◌&&◌, if◌then◌else◌, is_empty,
}
use identity_platform_go.Auth.Domain.{
  Client, DeviceAuthorization, pending, random_failed, has_grant_type, grant_device_code,
}
use identity_platform_go.Auth.Store.Devices.{save_device, approve, deny}
use identity_platform_go.Auth.World.{Env, M, now, draw, second}
use identity_platform_go.Auth.Clients.{authenticate}
use identity_platform_go.Auth.Http.Messages.{
  HttpRequest, Site, Handler, DeviceDecision, Reply, oauth_error, plain_error, device_issued,
  decided, call, form_value, credentials, has_bearer,
}
use identity_platform_go.Auth.Http.Authorize.{bad, server_error}

-- `userCodeAlphabet`
abbrev pub alphabet : String
alphabet = "0123456789ABCDEFGHJKMNPQRSTVWXYZ"

-- `s[n]` as a text, empty past the end
unfoldable pub letter : ℕ → String → String
letter n String.[] = ""
letter zero (String.◌∷◌ c s) = String.◌∷◌ c String.[]
letter (suc n) (String.◌∷◌ c s) = letter n s

-- The loop of `generateUserCode` over some of the bytes
unfoldable pub letters : List ℕ → String
unfolding letter
letters [] = ""
letters (b ∷ bs) = Prim.Native.String.◌++◌ (letter (b % 32) alphabet) (letters bs)

-- `generateUserCode` behind its read of eight random bytes
unfoldable pub format_user_code : List ℕ → String
unfolding letters
format_user_code (a ∷ b ∷ c ∷ d ∷ rest) =
    Prim.Native.String.◌++◌ (letters (a ∷ b ∷ c ∷ d ∷ []))
      (Prim.Native.String.◌++◌ "-" (letters rest))
format_user_code bytes = letters bytes

unfoldable pub generate_user_code : Site → M String
unfolding format_user_code
generate_user_code site w =
    or_fail
      (elim (site.random_bytes w.draws) [
        | none ↦ none
        | some bytes ↦ some (format_user_code bytes)
      ])
      random_failed (record w { draws = suc w.draws })

-- The record that `issueAndRespond` saves
abbrev pub new_device : Site → String → String → String → String → ℕ → DeviceAuthorization
new_device site client_id scope device_code user_code at = record {
  device_code = device_code;
  user_code = user_code;
  client_id = client_id;
  scope = scope;
  status = pending;
  subject = "";
  interval = site.device_interval;
  created_at = at;
  expires_at = at + site.device_ttl;
}

-- `issueAndRespond`, with `generateOpaqueDeviceCode`
unfoldable pub issue_device : Env → Site → Client → String → Handler Reply
unfolding generate_user_code
issue_device env site client scope = do
  device_code ← call (draw env) server_error
  user_code ← call (generate_user_code site) server_error
  at ← call (now env) server_error
  call
      (modify (λ w. record w {
        devices = save_device (new_device site client.id scope device_code user_code at) w.devices;
      }))
      server_error
  pure (device_issued device_code user_code (site.device_ttl / second))

-- `PostDeviceAuthorization`, with `readDeviceAuthClientCredentials`
unfoldable pub post_device_authorization : Env → Site → HttpRequest → Handler Reply
unfolding credentials
post_device_authorization env site r = do
  _ ← or_fail r.form (oauth_error 400 "invalid_request")
  fail_if (is_empty (credentials r).0) (oauth_error 400 "invalid_request")
  client ←
      call (authenticate (credentials r).0 (credentials r).1)
        (λ _. oauth_error 401 "invalid_client")
  fail_if (not (has_grant_type client grant_device_code)) (oauth_error 400 "unauthorized_client")
  issue_device env site client (form_value r "scope")

-- `applyDecision`, with the clock reading of the repository
unfoldable pub apply_decision : Env → DeviceDecision → M (Unit {0})
apply_decision env body = do
  t ← now env
  λ w.
      let (r, d) =
        if body.approved
        then approve t body.user_code body.subject w.devices
        else deny t body.user_code w.devices in
      (r, record w { devices = d })

-- `decodeDeviceDecisionBody`
unfoldable pub decode_decision_body : Site → HttpRequest → Handler DeviceDecision
decode_decision_body site r = do
  body ← or_fail (site.decode_decision r.body) (oauth_error 400 "invalid_request")
  fail_if (is_empty body.user_code) (oauth_error 400 "invalid_request")
  fail_if (body.approved && is_empty body.subject) (oauth_error 400 "invalid_request")
  pure body

-- `PostDecision`
unfoldable pub post_decision : Env → Site → HttpRequest → Handler Reply
unfolding decode_decision_body apply_decision
post_decision env site r = do
  fail_if (is_empty site.device_token) (plain_error 404 "")
  fail_if (not (has_bearer site.device_token r)) (oauth_error 401 "invalid_client")
  body ← decode_decision_body site r
  call (apply_decision env body) (bad "invalid_request")
  pure (decided body.approved)
