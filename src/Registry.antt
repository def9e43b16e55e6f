-- ===== src/Registry.antt =====
-- services/client-registry-service/internal: the clients, their store and what the services call.
pub mod Clients
pub mod Registration
pub mod Management
pub mod Sound
pub mod Shapes
mod Tests
use identity_platform_go.Base.{
  ℕ, suc, Bool, Option, none, some, String, List, ◌∷◌, Result, ok, err, Action, or_fail,
  if◌then◌else◌, ErrorCode, missing, conflict, ◌>>=◌, pure, ◌==◌,
}
use identity_platform_go.Base.Dict.{Dict, lookup, insert, erase}

-- `domain.OAuthClient`
pub record OAuthClient : Type 0 where
  pub id : String
  pub secret : String
  pub name : String
  pub kind : String
  pub actor_type : String
  pub scopes : List String
  pub redirect_uris : List String
  pub grant_types : List String
  pub auth_method : String
  pub token_hash : String
  pub jwks_uri : String
  pub trusted_issuer_cert : String
  pub created_at : ℕ
  pub updated_at : ℕ
  pub active : Bool

abbrev pub kind_confidential : String
kind_confidential = "confidential"

abbrev pub kind_public : String
kind_public = "public"

-- The codes of `RegistrationError`, and the errors of apperrors and of the calls
pub data Failure : Type 0 where
  invalid_redirect_uri invalid_client_metadata invalid_software_statement invalid_token : Failure
  registration_not_found random_failed hash_failed audit_failed : Failure
  app : ErrorCode → Failure

-- What `net/url` gives for a text that parses
pub record Url : Type 0 where
  pub scheme : String
  pub fragment : String
  pub hostname : String

-- What the services are constructed with. bcrypt, net/url and net/mail are parameters.
pub record Setup : Type 0 where
  pub clock : ℕ → ℕ
  pub random : ℕ → Option String
  -- the n-th hash, whose salt is fresh, and the comparison of a hash with a text
  pub hash : ℕ → String → Option String
  pub compare_hash : String → String → Bool
  pub sink : ℕ → Bool
  pub parse_url : String → Option Url
  pub is_address : String → Bool
  pub base_url : String
  pub allowed_scopes : List String
  pub allow_localhost : Bool

-- The audit events, as far as they depend on the request
pub record RegistryEvent : Type 0 where
  pub event_type : String
  pub actor_type : String
  pub client_id : String

pub record RegistryState : Type 0 where
  pub clients : Dict OAuthClient
  pub readings : ℕ
  pub draws : ℕ
  pub hashes : ℕ
  pub emissions : ℕ
  pub events : List RegistryEvent

abbrev pub R : Type 0 → Type 0
R = Action RegistryState Failure

unfoldable pub read_clock : Setup → R ℕ
read_clock env s = (ok (env.clock s.readings), record s { readings = suc s.readings })

-- `generateHex`
unfoldable pub generate_hex : Setup → R String
generate_hex env s = or_fail (env.random s.draws) random_failed (record s { draws = suc s.draws })

-- `bcrypt.GenerateFromPassword`
unfoldable pub hash_password : Setup → String → R String
hash_password env plain s =
    or_fail (env.hash s.hashes plain) hash_failed (record s { hashes = suc s.hashes })

unfoldable pub emit_registry : Setup → RegistryEvent → R (Unit {0})
emit_registry env e s =
    if env.sink s.emissions
    then (ok tt, record s { emissions = suc s.emissions; events = e ∷ s.events })
    else (err audit_failed, record s { emissions = suc s.emissions })

-- memory/client_repo.go. Copies are values here.
unfoldable pub find_stored : String → R OAuthClient
find_stored id s = or_fail (lookup id s.clients) (app missing) s

unfoldable pub save_stored : OAuthClient → R (Unit {0})
save_stored c s = elim (lookup c.id s.clients) [
  | some _ ↦ (err (app conflict), s)
  | none ↦ (ok tt, record s { clients = insert c.id c s.clients })
]

unfoldable pub update_stored : OAuthClient → R (Unit {0})
update_stored c s = elim (lookup c.id s.clients) [
  | none ↦ (err (app missing), s)
  | some _ ↦ (ok tt, record s { clients = insert c.id c s.clients })
]

unfoldable pub delete_stored : String → R (Unit {0})
delete_stored id s = elim (lookup id s.clients) [
  | none ↦ (err (app missing), s)
  | some _ ↦ (ok tt, record s { clients = erase id s.clients })
]

-- `generateSecretFor` of both services: the secret in plain and its hash
unfoldable pub generate_secret_for : Setup → String → R (String × String)
unfolding generate_hex hash_password
generate_secret_for env kind =
    if kind == kind_confidential
    then (do plain ← generate_hex env; hash ← hash_password env plain; pure (plain, hash))
    else pure ("", "")
