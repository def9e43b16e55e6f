-- ===== src/Registry/Tests.antt =====
-- The registry's theorems at concrete inputs.
use identity_platform_go.Base.{
  ℕ, ◌≡◌, refl, subst, arith, true, false, Bool, some, none, Option, Option-cases, Bool-cases, inl,
  inr, String, List, [], ◌∷◌, ok, err, Result, ◌>>=◌, is_empty, ◌==◌, eq_refl, if◌then◌else◌,
  contains,
}
use identity_platform_go.Base.Dict.{lookup}
use identity_platform_go.Registry.{OAuthClient, Failure, Setup, RegistryState}
use identity_platform_go.Registry.Clients.{CreateRequest, validate_client_secret}
use identity_platform_go.Registry.Registration.{RegistrationRequest, RegistrationResponse, register}
use identity_platform_go.Registry.Management.{read_registration}
use identity_platform_go.Registry.Shapes.{AllSound}
use identity_platform_go.Registry.Shapes.Kept.{
  RegistryCall, creates, registers, deletes, updates, serve_calls, serve_calls-AllSound,
}
use identity_platform_go.Registry.Sound.{Bcrypt, register-read_registration}

abbrev setup : Setup
setup = record {
  clock = λ n. n;
  random = λ n. some "id";
  hash = λ n p. if is_empty p then none else some p;
  compare_hash = ◌==◌;
  sink = λ n. true;
  parse_url = λ u. some (record { scheme = "https"; fragment = ""; hostname = u });
  is_address = λ a. true;
  base_url = "https://r";
  allowed_scopes = "read" ∷ "write" ∷ [];
  allow_localhost = false;
}

abbrev nothing : RegistryState
nothing = record { clients = []; readings = 0; draws = 0; hashes = 0; emissions = 0; events = [] }

abbrev asked : RegistrationRequest
asked = record {
  client_name = "App";
  redirect_uris = "https://app" ∷ [];
  grant_types = "authorization_code" ∷ "refresh_token" ∷ [];
  response_types = [];
  auth_method = "client_secret_basic";
  scope = "read";
  contacts = [];
  client_uri = "";
  logo_uri = "";
  tos_uri = "";
  policy_uri = "";
  software_statement = "";
  jwks_uri = "";
}

abbrev no_answer : RegistrationResponse
no_answer = record {
  client_id = "";
  issued_at = 0;
  client_secret = "";
  access_token = "";
  client_uri = "";
  client_name = "";
  redirect_uris = [];
  grant_types = [];
  response_types = [];
  auth_method = "";
  scope = "";
  jwks_uri = "";
}

abbrev response : RegistrationResponse
response = elim (register setup asked nothing).0 [ ok r ↦ r | err _ ↦ no_answer ]

abbrev after : RegistryState
after = (register setup asked nothing).1

ran : register setup asked nothing ≡ (ok response, after)
unfolding register ◌>>=◌ identity_platform_go.Registry.Registration.validate_shape contains
    identity_platform_go.Registry.Registration.validate_redirects
    identity_platform_go.Registry.Registration.valid_redirects
    identity_platform_go.Registry.Registration.validate_content
    identity_platform_go.Base.Words.fields identity_platform_go.Registry.generate_hex
    identity_platform_go.Registry.generate_secret_for
    identity_platform_go.Registry.Registration.kind_of
    identity_platform_go.Registry.Registration.generate_token
    identity_platform_go.Registry.read_clock identity_platform_go.Registry.save_stored lookup
    identity_platform_go.Registry.emit_registry
ran = refl

accepts :
    (n : ℕ) (plain hash : String)
    → (if is_empty plain then none else some plain) ≡ some hash
    → ((hash == plain) ≡ true) × (is_empty hash ≡ false)
accepts n plain hash e = elim (Bool-cases (is_empty plain)) [
  | inl q ↦ absurd (ground arith)
  | inr q ↦ (ground (arith, eq_refl plain), ground arith)
]

drawn : (n : ℕ) (s : String) → some "id" ≡ some s → is_empty s ≡ false
drawn n s e = let same : "id" ≡ s = ground arith in subst (λ t. is_empty t ≡ false) same refl

bcrypt : Bcrypt setup
bcrypt = record { accepts = accepts; drawn = drawn }

register-read_registration_example :
    (lookup response.client_id nothing.clients ≡ none)
    × (validate_client_secret setup response.client_id response.client_secret after ≡ true)
    × (read_registration setup response.client_id response.access_token after ≡ (
      ok (record response { client_secret = ""; access_token = ""; response_types = "code" ∷ [] }),
      after,
    ))
register-read_registration_example =
    register-read_registration setup bcrypt asked nothing after response ran

abbrev made : CreateRequest
made = record {
  name = "Job";
  client_type = "confidential";
  actor_type = "agent";
  scopes = "read" ∷ [];
  redirect_uris = [];
  grant_types = "client_credentials" ∷ [];
  jwks_uri = "";
  trusted_issuer_cert = "";
}

-- The second registration draws an ID that is taken.
abbrev calls : List RegistryCall
calls =
    registers asked
    ∷ registers asked
    ∷ updates "id" "id" (record asked { auth_method = "none" })
    ∷ deletes "id"
    ∷ creates made
    ∷ []

serve_calls-AllSound_example : AllSound setup (serve_calls setup calls nothing)
serve_calls-AllSound_example = serve_calls-AllSound setup calls nothing tt
