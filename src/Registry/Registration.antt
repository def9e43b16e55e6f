-- ===== src/Registry/Registration.antt =====
-- RegistrationService.Register of registration.go, and the rules that an update shares with it.
use Prim.Native.Char.{code}
use Prim.Native.String
use identity_platform_go.Base.{
  ℕ, zero, suc, ◌+◌, Bool, true, false, none, some, String, List, [], ◌∷◌, Result, ok, err, ◌>>=◌,
  ◌>>◌, lift, pure, not, ◌&&◌, ◌||◌, ◌==◌, if◌then◌else◌, is_empty, contains, ltb,
}
use identity_platform_go.Base.Words.{fields, join}
use identity_platform_go.Registry.{
  OAuthClient, kind_confidential, kind_public, Failure, invalid_redirect_uri,
  invalid_client_metadata, invalid_software_statement, Setup, Url, RegistryEvent, R, read_clock,
  generate_hex, hash_password, emit_registry, save_stored, generate_secret_for,
}

-- `domain.RegistrationRequest`
pub record RegistrationRequest : Type 0 where
  pub client_name : String
  pub redirect_uris : List String
  pub grant_types : List String
  pub response_types : List String
  pub auth_method : String
  pub scope : String
  pub contacts : List String
  pub client_uri : String
  pub logo_uri : String
  pub tos_uri : String
  pub policy_uri : String
  pub software_statement : String
  pub jwks_uri : String

-- `domain.RegistrationResponse`, with the time of issue in nanoseconds
pub record RegistrationResponse : Type 0 where
  pub client_id : String
  pub issued_at : ℕ
  pub client_secret : String
  pub access_token : String
  pub client_uri : String
  pub client_name : String
  pub redirect_uris : List String
  pub grant_types : List String
  pub response_types : List String
  pub auth_method : String
  pub scope : String
  pub jwks_uri : String

abbrev pub Check : Type 0
Check = Result Failure (Unit {0})

abbrev pub auth_none : String
auth_none = "none"

abbrev pub known_grants : List String
known_grants = "authorization_code" ∷ "refresh_token" ∷ "client_credentials" ∷ []

abbrev pub known_methods : List String
known_methods = "client_secret_basic" ∷ "client_secret_post" ∷ auth_none ∷ []

-- `defaultGrantTypes`, `defaultResponseTypes` and `defaultAuthMethod`
unfoldable pub default_grants : List String → List String
default_grants [] = "authorization_code" ∷ []
default_grants (g ∷ gs) = g ∷ gs

unfoldable pub default_responses : List String → List String
default_responses [] = "code" ∷ []
default_responses (r ∷ rs) = r ∷ rs

unfoldable pub default_method : String → String
default_method m = if is_empty m then auth_none else m

-- The loops of `validateGrantTypes` and `validateScopes`
unfoldable pub each_known : List String → List String → Check
each_known known [] = ok tt
each_known known (x ∷ xs) =
    let rest = each_known known xs in if contains known x then rest else err invalid_client_metadata

-- `validateResponseTypes`
unfoldable pub validate_responses : List String → Check
validate_responses [] = ok tt
validate_responses (r ∷ rs) =
    let rest = validate_responses rs in
    if not (r == "code") then err invalid_client_metadata else rest

-- `validateGrantResponseConsistency`
unfoldable pub validate_consistency : List String → List String → Check
validate_consistency grants responses =
    if contains grants "authorization_code" && not (contains responses "code")
    then err invalid_client_metadata
    else ok tt

-- `validateAuthMethod`
unfoldable pub validate_method : String → Check
validate_method m = if contains known_methods m then ok tt else err invalid_client_metadata

-- `isLocalhostHost`
unfoldable pub is_localhost : String → Bool
is_localhost h = h == "localhost" || h == "127.0.0.1" || h == "::1"

-- `isAllowedRedirectScheme`, and the test of `validateHTTPSURL`
unfoldable pub allowed_scheme : Setup → Url → Bool
unfolding is_localhost
allowed_scheme env u =
    u.scheme == "https" || env.allow_localhost && u.scheme == "http" && is_localhost u.hostname

-- `strings.Contains(raw, "*")`
unfoldable pub has_star : String → Bool
has_star String.[] = false
has_star (String.◌∷◌ c s) = String.◌∷◌ c String.[] == "*" || has_star s

-- `validateRedirectURI`
unfoldable pub valid_redirect : Setup → String → Bool
unfolding allowed_scheme has_star
valid_redirect env raw = elim (env.parse_url raw) [
  | none ↦ false
  | some u ↦
      if not (is_empty u.fragment)
      then false
      else if has_star raw
      then false
      else allowed_scheme env u
]

-- The loop of `validateRedirectURIs`
unfoldable pub valid_redirects : Setup → List String → Bool
unfolding valid_redirect
valid_redirects env [] = true
valid_redirects env (u ∷ us) = valid_redirect env u && valid_redirects env us

abbrev none_given : List String → Bool
none_given [] = true
none_given (_ ∷ _) = false

-- `validateRedirectURIs`
unfoldable pub validate_redirects : Setup → List String → List String → Check
validate_redirects env uris grants =
    if contains grants "authorization_code" && none_given uris
    then err invalid_redirect_uri
    else if valid_redirects env uris
    then ok tt
    else err invalid_redirect_uri

-- `validateScopes`
unfoldable pub validate_scopes : Setup → List String → Check
unfolding each_known
validate_scopes env scopes =
    if none_given env.allowed_scopes then ok tt else each_known env.allowed_scopes scopes

-- `validateHTTPSURL`, for a text that is given
unfoldable pub valid_https : Setup → String → Bool
unfolding allowed_scheme
valid_https env raw =
    is_empty raw || (elim (env.parse_url raw) [ none ↦ false | some u ↦ allowed_scheme env u ])

-- `validateMetadataURIs`, which `Register` repeats
unfoldable pub validate_metadata : Setup → RegistrationRequest → Check
unfolding valid_https
validate_metadata env req =
    if valid_https env req.client_uri
      && valid_https env req.logo_uri
      && valid_https env req.tos_uri
      && valid_https env req.policy_uri
    then ok tt
    else err invalid_client_metadata

unfoldable pub count : List String → ℕ
count [] = 0
count (_ ∷ xs) = suc (count xs)

unfoldable pub all_addresses : Setup → List String → Bool
all_addresses env [] = true
all_addresses env (c ∷ cs) = env.is_address c && all_addresses env cs

-- `validateContacts`
unfoldable pub validate_contacts : Setup → List String → Check
unfolding count all_addresses
validate_contacts env contacts =
    if ltb 10 (count contacts)
    then err invalid_client_metadata
    else if all_addresses env contacts
    then ok tt
    else err invalid_client_metadata

-- The bytes of a character in UTF-8
unfoldable pub width : ℕ → ℕ
width c = if ltb c 128 then 1 else if ltb c 2048 then 2 else if ltb c 65536 then 3 else 4

-- `len` of a text
unfoldable pub byte_length : String → ℕ
unfolding width
byte_length String.[] = 0
byte_length (String.◌∷◌ c s) = width (code c) + byte_length s

-- `validateClientName`
unfoldable pub validate_name : String → Check
unfolding byte_length
validate_name name = if ltb 200 (byte_length name) then err invalid_client_metadata else ok tt

-- `validateRequestShape`, which `Register` repeats: the grants and the method
unfoldable pub validate_shape : RegistrationRequest → Result Failure (List String × String)
unfolding default_grants default_responses default_method each_known validate_responses
    validate_consistency validate_method
validate_shape req =
    if not (is_empty req.software_statement)
    then err invalid_software_statement
    else elim (each_known known_grants (default_grants req.grant_types)) [
      | err e ↦ err e
      | ok _ ↦ elim (validate_responses (default_responses req.response_types)) [
        | err e ↦ err e
        | ok _ ↦
            elim (validate_consistency (default_grants req.grant_types)
              (default_responses req.response_types)) [
                | err e ↦ err e
                | ok _ ↦ elim (validate_method (default_method req.auth_method)) [
                  | err e ↦ err e
                  | ok _ ↦ ok (default_grants req.grant_types, default_method req.auth_method)
                ]
              ]
      ]
    ]

-- `validateRequestContent`
unfoldable pub validate_content : Setup → RegistrationRequest → Check
unfolding validate_scopes validate_metadata validate_contacts validate_name
validate_content env req = elim (validate_scopes env (fields req.scope)) [
  | err e ↦ err e
  | ok _ ↦ elim (validate_metadata env req) [
    | err e ↦ err e
    | ok _ ↦ elim (validate_contacts env req.contacts) [
      | err e ↦ err e
      | ok _ ↦ validate_name req.client_name
    ]
  ]
]

-- The type of the client by its method
unfoldable pub kind_of : String → String
kind_of m = if m == auth_none then kind_public else kind_confidential

-- The first characters of a text
unfoldable pub prefix : ℕ → String → String
prefix zero s = ""
prefix (suc n) String.[] = ""
prefix (suc n) (String.◌∷◌ c s) = String.◌∷◌ c (prefix n s)

unfoldable pub default_name : String → String → String
unfolding prefix
default_name name id =
    if is_empty name then Prim.Native.String.◌++◌ "Client " (prefix 8 id) else name

-- `generateRegistrationToken`
unfoldable pub generate_token : Setup → R (String × String)
unfolding generate_hex hash_password
generate_token env = do plain ← generate_hex env; hash ← hash_password env plain; pure (plain, hash)

-- The client that `Register` saves
abbrev pub registered :
    RegistrationRequest → List String → String → String → String → String → ℕ → OAuthClient
registered req grants method id secret token_hash at = record {
  id = id;
  secret = secret;
  name = default_name req.client_name id;
  kind = kind_of method;
  actor_type = "service";
  scopes = fields req.scope;
  redirect_uris = req.redirect_uris;
  grant_types = grants;
  auth_method = method;
  token_hash = token_hash;
  jwks_uri = req.jwks_uri;
  trusted_issuer_cert = "";
  created_at = at;
  updated_at = at;
  active = true;
}

-- `toResponse`, and what `Register` answers up to the response types
unfoldable pub to_response : Setup → OAuthClient → String → String → RegistrationResponse
to_response env c secret token = record {
  client_id = c.id;
  issued_at = c.created_at;
  client_secret = secret;
  access_token = token;
  client_uri = Prim.Native.String.◌++◌ env.base_url (Prim.Native.String.◌++◌ "/register/" c.id);
  client_name = c.name;
  redirect_uris = c.redirect_uris;
  grant_types = c.grant_types;
  response_types = "code" ∷ [];
  auth_method = c.auth_method;
  scope = join c.scopes;
  jwks_uri = c.jwks_uri;
}

-- The event of `Register`
abbrev pub registered_event : String → RegistryEvent
registered_event id = record {
  event_type = "client_registered";
  actor_type = "service";
  client_id = id;
}

-- `Register`
unfoldable pub register : Setup → RegistrationRequest → R RegistrationResponse
register env req = do
  (grants, method) ← lift (validate_shape req)
  lift (validate_redirects env req.redirect_uris grants)
  lift (validate_content env req)
  id ← generate_hex env
  (secret, secret_hash) ← generate_secret_for env (kind_of method)
  (token, token_hash) ← generate_token env
  at ← read_clock env
  save_stored (registered req grants method id secret_hash token_hash at)
  emit_registry env (registered_event id)
  pure
      (record (to_response env (registered req grants method id secret_hash token_hash at) secret
        token) { response_types = default_responses req.response_types })
