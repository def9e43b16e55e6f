-- ===== src/Registry/Management.antt =====
-- The RFC 7592 operations of registration.go: a client reads, updates and deletes its registration.
use identity_platform_go.Base.{
  ℕ, none, some, String, List, ok, err, ◌>>=◌, ◌>>◌, lift, pure, not, ◌&&◌, ◌==◌, if◌then◌else◌,
  is_empty,
}
use identity_platform_go.Base.Dict.{lookup}
use identity_platform_go.Base.Words.{fields}
use identity_platform_go.Registry.{
  OAuthClient, kind_confidential, kind_public, invalid_token, registration_not_found, Setup, R,
  read_clock, emit_registry, update_stored, delete_stored, generate_secret_for,
}
use identity_platform_go.Registry.Registration.{
  RegistrationRequest, RegistrationResponse, validate_shape, validate_redirects, validate_content,
  kind_of, to_response,
}

-- `RegistrationService.authorize`
unfoldable pub authorize_management : Setup → String → String → R OAuthClient
authorize_management env id token s =
    if is_empty token then (err invalid_token, s) else elim (lookup id s.clients) [
      | none ↦ (err registration_not_found, s)
      | some c ↦
          if is_empty c.token_hash
          then (err registration_not_found, s)
          else if not (env.compare_hash c.token_hash token)
          then (err registration_not_found, s)
          else (ok c, s)
    ]

-- `ReadRegistration`
unfoldable pub read_registration : Setup → String → String → R RegistrationResponse
read_registration env id token = do
  c ← authorize_management env id token
  pure (to_response env c "" "")

-- `rotateSecretIfNeeded`: the new secret, empty where there is none, and the stored hash
unfoldable pub rotate_secret : Setup → String → OAuthClient → R (String × String)
rotate_secret env kind prev =
    if kind == kind_public
    then pure ("", "")
    else if prev.kind == kind_confidential && not (is_empty prev.secret)
    then pure ("", prev.secret)
    else generate_secret_for env kind_confidential

-- The client that `applyUpdate` makes
abbrev pub updated :
    OAuthClient → RegistrationRequest → List String → String → String → ℕ → OAuthClient
updated client req grants method secret at = record client {
  secret = secret;
  name = if is_empty req.client_name then client.name else req.client_name;
  kind = kind_of method;
  scopes = fields req.scope;
  redirect_uris = req.redirect_uris;
  grant_types = grants;
  auth_method = method;
  updated_at = at;
}

-- `UpdateRegistration`, with `validateUpdate` and `applyUpdate`
unfoldable pub update_registration :
    Setup → String → String → RegistrationRequest → R RegistrationResponse
unfolding rotate_secret
update_registration env id token req = do
  client ← authorize_management env id token
  (grants, method) ← lift (validate_shape req)
  lift (validate_redirects env req.redirect_uris grants)
  lift (validate_content env req)
  at ← read_clock env
  (plain, secret) ← rotate_secret env (kind_of method) client
  update_stored (updated client req grants method secret at)
  pure (to_response env (updated client req grants method secret at) plain "")

-- `DeleteRegistration`
unfoldable pub delete_registration : Setup → String → String → R (Unit {0})
delete_registration env id token = do
  client ← authorize_management env id token
  delete_stored client.id
  emit_registry env
      (record { event_type = "client_deleted"; actor_type = "service"; client_id = client.id })
