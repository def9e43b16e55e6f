-- ===== src/Auth/Grants/Saml.antt =====
-- SAMLBearerStrategy (saml_bearer_strategy.go) and SAMLBearerValidator (saml_bearer_validator.go). The
-- XML parser and the signature check are parameters: a document is what they make of it.
use identity_platform_go.Base.{
  ℕ, ◌+◌, ◌/◌, Bool, true, false, Option, none, some, String, List, [], ◌∷◌, err, ◌>>=◌, ◌>>◌,
  or_fail, fail_if, lift, pure, not, ◌&&◌, ◌||◌, ◌==◌, if◌then◌else◌, is_empty, ltb,
}
use identity_platform_go.Base.Words.{join}
use identity_platform_go.Auth.Domain.{
  Client, invalid_request, invalid_grant, unauthorized_client, Token, no_token, actor_user,
  type_bearer, has_grant_type,
}
use identity_platform_go.Auth.Requests.{GrantRequest, GrantResponse, no_response}
use identity_platform_go.Auth.World.{Env, M, now, second}
use identity_platform_go.Auth.Clients.{authenticate}
use identity_platform_go.Auth.Tokens.{generate_id, issue_access}
use identity_platform_go.Auth.Grants.ClientCredentials.{resolve_scopes}
use identity_platform_go.Auth.Grants.Registry.{Strategy}

-- A window of time; a bound that is zero is `none`.
pub record Window : Type 0 where
  pub not_before : Option ℕ
  pub not_on_or_after : Option ℕ

pub record Conditions : Type 0 where
  pub window : Window
  pub audiences : List String

-- A SubjectConfirmation; its data is `none` where it has none.
pub record Confirmation : Type 0 where
  pub method : String
  pub data_of : Option (String × Window)

-- The Subject, with its NameID's value, empty where it has none
pub record Subject : Type 0 where
  pub name_id : String
  pub confirmations : List Confirmation

-- The parts of `saml.Assertion` that are read
pub record SamlAssertion : Type 0 where
  pub conditions : Option Conditions
  pub subject : Option Subject

-- What the validator calls
pub record Saml : Type 0 where
  pub is_certificate : String → Bool
  -- the root element of a document that is one Assertion
  pub parse : String → Option SamlAssertion
  -- whether the document's signature verifies under the certificate
  pub signed : String → String → Bool
  pub endpoint : String

abbrev pub grant_saml : String
grant_saml = "urn:ietf:params:oauth:grant-type:saml2-bearer"

abbrev pub method_bearer : String
method_bearer = "urn:oasis:names:tc:SAML:2.0:cm:bearer"

-- `withinWindow`
unfoldable pub within : Window → ℕ → Bool
within w t =
    (elim w.not_before [ none ↦ true | some from ↦ not (ltb t from) ])
    && (elim w.not_on_or_after [ none ↦ true | some to ↦ ltb t to ])

-- `audienceRestricted`
unfoldable pub audience_restricted : List String → String → Bool
audience_restricted [] audience = false
audience_restricted (a ∷ as_of) audience = a == audience || audience_restricted as_of audience

-- `checkSAMLConditions`
unfoldable pub check_conditions : Env → Option Conditions → String → M (Unit {0})
unfolding within audience_restricted
check_conditions env none audience = lift (err invalid_grant)
check_conditions env (some c) audience = do
  t ← now env
  fail_if (not (within c.window t)) invalid_grant
  fail_if (not (audience_restricted c.audiences audience)) invalid_grant

-- `isValidBearerConfirmation`
unfoldable pub valid_confirmation : Confirmation → String → ℕ → Bool
unfolding within
valid_confirmation c recipient t =
    if not (c.method == method_bearer)
    then false
    else elim c.data_of [ none ↦ false | some d ↦ d.0 == recipient && within d.1 t ]

-- The loop of `checkBearerSubjectConfirmation`
unfoldable pub some_confirmation : List Confirmation → String → ℕ → Bool
some_confirmation [] recipient t = false
some_confirmation (c ∷ cs) recipient t =
    valid_confirmation c recipient t || some_confirmation cs recipient t

-- `checkBearerSubjectConfirmation` and `nameIDValue`
unfoldable pub check_subject : Env → Option Subject → String → M String
check_subject env none recipient = lift (err invalid_grant)
check_subject env (some s) recipient = do
  t ← now env
  fail_if (not (some_confirmation s.confirmations recipient t)) invalid_grant
  fail_if (is_empty s.name_id) invalid_grant
  pure s.name_id

-- `Validate`: the subject
unfoldable pub validate_saml : Env → Saml → String → String → M String
unfolding check_conditions check_subject
validate_saml env saml raw certificate = do
  fail_if (not (saml.is_certificate certificate)) invalid_grant
  a ← or_fail (saml.parse raw) invalid_grant
  fail_if (not (saml.signed raw certificate)) invalid_grant
  check_conditions env a.conditions saml.endpoint
  check_subject env a.subject saml.endpoint

-- The token that `issueToken` builds
abbrev pub saml_token : Env → Client → String → List String → ℕ → String → Token
saml_token env client subject scopes at id = record no_token {
  id = id;
  client_id = client.id;
  subject = subject;
  scopes = scopes;
  actor_type = actor_user;
  expires_at = at + env.ttl;
  issued_at = at;
  token_type = type_bearer;
}

-- `issueToken`
unfoldable pub issue_saml : Env → Client → String → List String → M GrantResponse
issue_saml env client subject scopes = do
  id ← generate_id env
  at ← now env
  raw ← issue_access env (saml_token env client subject scopes at id)
  pure (record no_response {
    access_token = raw;
    token_type = type_bearer;
    expires_in = env.ttl / second;
    scope = join scopes;
    actor_type = actor_user;
    subject = subject;
  })

-- `Handle`. `resolveSAMLScopes` repeats `resolveScopes`.
unfoldable pub saml_bearer : Env → Saml → GrantRequest → M GrantResponse
saml_bearer env saml req = do
  fail_if (is_empty req.saml_assertion) invalid_request
  client ← authenticate req.client_id req.client_secret
  fail_if (not (has_grant_type client grant_saml)) unauthorized_client
  fail_if (is_empty client.trusted_issuer_cert) invalid_grant
  subject ← validate_saml env saml req.saml_assertion client.trusted_issuer_cert
  scopes ← lift (resolve_scopes client req.scopes)
  issue_saml env client subject scopes

unfoldable pub saml_strategy : Env → Saml → Strategy
saml_strategy env saml = record { supports = ◌==◌ grant_saml; handle = saml_bearer env saml }
