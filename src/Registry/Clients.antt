-- ===== src/Registry/Clients.antt =====
-- ClientService of client_service.go.
use identity_platform_go.Base.{
  ℕ, Bool, true, false, none, some, String, List, [], ◌∷◌, Result, ok, err, ◌>>=◌, ◌>>◌, lift, pure,
  not, ◌==◌, if◌then◌else◌, is_empty, contains, bad_request, map,
}
use identity_platform_go.Base.Dict.{lookup}
use identity_platform_go.Registry.{
  OAuthClient, kind_confidential, kind_public, Failure, app, Setup, RegistryState, R, read_clock,
  generate_hex, emit_registry, find_stored, save_stored, delete_stored, generate_secret_for,
}

-- `domain.CreateClientRequest`
pub record CreateRequest : Type 0 where
  pub name : String
  pub client_type : String
  pub actor_type : String
  pub scopes : List String
  pub redirect_uris : List String
  pub grant_types : List String
  pub jwks_uri : String
  pub trusted_issuer_cert : String

-- `domain.CreateClientResponse`
pub record CreateResponse : Type 0 where
  pub client_id : String
  pub client_secret : String
  pub name : String
  pub client_type : String
  pub actor_type : String
  pub scopes : List String
  pub redirect_uris : List String
  pub grant_types : List String
  pub jwks_uri : String
  pub trusted_issuer_cert : String

-- `domain.GetClientResponse`
pub record ClientView : Type 0 where
  pub client_id : String
  pub name : String
  pub client_type : String
  pub actor_type : String
  pub scopes : List String
  pub redirect_uris : List String
  pub grant_types : List String
  pub active : Bool
  pub jwks_uri : String
  pub trusted_issuer_cert : String

abbrev no_grants : List String → Bool
no_grants [] = true
no_grants (_ ∷ _) = false

-- `validateCreateRequest`
unfoldable pub validate_create : CreateRequest → Result Failure (Unit {0})
validate_create req =
    if is_empty req.name
    then err (app bad_request)
    else if no_grants req.grant_types
    then err (app bad_request)
    else if contains req.grant_types ""
    then err (app bad_request)
    else ok tt

-- `normalizeIncomingClientType`, and `normalizeClientType`, which repeats it
unfoldable pub normalize_kind : String → String
normalize_kind wire = if wire == kind_public then kind_public else kind_confidential

-- `normalizeIncomingActorType`, and `normalizeActorType`
unfoldable pub normalize_actor : String → String
normalize_actor wire =
    if wire == "user" then "user" else if wire == "agent" then "agent" else "service"

-- `resolveAuditActor`
unfoldable pub audit_actor : String → String × String
audit_actor actor =
    if actor == "agent"
    then ("agent_registered", "agent")
    else if actor == "user"
    then ("client_registered", "user")
    else ("client_registered", "service")

-- The client that `CreateClient` saves
abbrev pub created : CreateRequest → String → String → ℕ → OAuthClient
created req id hash at = record {
  id = id;
  secret = hash;
  name = req.name;
  kind = normalize_kind req.client_type;
  actor_type = normalize_actor req.actor_type;
  scopes = req.scopes;
  redirect_uris = req.redirect_uris;
  grant_types = req.grant_types;
  auth_method = "";
  token_hash = "";
  jwks_uri = req.jwks_uri;
  trusted_issuer_cert = req.trusted_issuer_cert;
  created_at = at;
  updated_at = at;
  active = true;
}

abbrev pub create_response : OAuthClient → String → CreateResponse
create_response c plain = record {
  client_id = c.id;
  client_secret = plain;
  name = c.name;
  client_type = c.kind;
  actor_type = c.actor_type;
  scopes = c.scopes;
  redirect_uris = c.redirect_uris;
  grant_types = c.grant_types;
  jwks_uri = c.jwks_uri;
  trusted_issuer_cert = c.trusted_issuer_cert;
}

-- `emitClientRegistered`
unfoldable pub emit_registered : Setup → OAuthClient → R (Unit {0})
unfolding audit_actor
emit_registered env c = emit_registry env (record {
  event_type = (audit_actor c.actor_type).0;
  actor_type = (audit_actor c.actor_type).1;
  client_id = c.id;
})

-- `CreateClient`
unfoldable pub create_client : Setup → CreateRequest → R CreateResponse
create_client env req = do
  lift (validate_create req)
  id ← generate_hex env
  (plain, hash) ← generate_secret_for env (normalize_kind req.client_type)
  at ← read_clock env
  save_stored (created req id hash at)
  emit_registered env (created req id hash at)
  pure (create_response (created req id hash at) plain)

unfoldable pub client_view : OAuthClient → ClientView
unfolding normalize_kind normalize_actor
client_view c = record {
  client_id = c.id;
  name = c.name;
  client_type = normalize_kind c.kind;
  actor_type = normalize_actor c.actor_type;
  scopes = c.scopes;
  redirect_uris = c.redirect_uris;
  grant_types = c.grant_types;
  active = c.active;
  jwks_uri = c.jwks_uri;
  trusted_issuer_cert = c.trusted_issuer_cert;
}

-- `GetClient`
unfoldable pub get_client : String → R ClientView
get_client id = do c ← find_stored id; pure (client_view c)

-- `ListClients`, which leaves the actor type empty. A Go map has no order: the list is in the
-- model's.
unfoldable pub list_clients : RegistryState → List ClientView
unfolding client_view
list_clients s = map (λ e. record (client_view e.1) { actor_type = "" }) s.clients

-- `ValidateClient`: no repository error but a missing client occurs here.
unfoldable pub validate_client_secret : Setup → String → String → RegistryState → Bool
validate_client_secret env id secret s = elim (lookup id s.clients) [
  | none ↦ false
  | some c ↦
      if c.kind == kind_public
      then c.active
      else if is_empty secret
      then false
      else if not (env.compare_hash c.secret secret)
      then false
      else c.active
]

-- `DeleteClient`
unfoldable pub delete_client : Setup → String → R (Unit {0})
delete_client env id = do
  delete_stored id
  emit_registry env
      (record { event_type = "client_deleted"; actor_type = "service"; client_id = id })
