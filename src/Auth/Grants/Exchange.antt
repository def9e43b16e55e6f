-- ===== src/Auth/Grants/Exchange.antt =====
-- token_exchange_strategy.go: trading a subject token for a delegated one.
pub mod Delegation
use identity_platform_go.Base.{
  ℕ, ◌+◌, ◌-◌, ◌/◌, Bool, true, false, Option, none, some, String, List, [], ◌∷◌, Result, ok, err,
  ◌>>=◌, ◌>>◌, fail_if, lift, pure, fail, not, ◌==◌, ◌&&◌, ◌||◌, if◌then◌else◌, ltb, is_empty,
  contains,
}
use identity_platform_go.Base.Words.{join}
use identity_platform_go.Auth.Domain.{
  Client, Error, Token, no_token, Actor, depth, AuthorizationDetail, resolved_actor_type, agent_id,
  is_public, has_grant_type, grant_token_exchange, urn_access_token, type_bearer, invalid_request,
  unauthorized_client,
}
use identity_platform_go.Auth.Requests.{GrantRequest, GrantResponse, no_response}
use identity_platform_go.Auth.World.{Env, World, M, now, second}
use identity_platform_go.Auth.Clients.{authenticate}
use identity_platform_go.Auth.Tokens.{generate_id, issue_access, validate}
use identity_platform_go.Auth.Grants.ClientCredentials.{all_allowed}

-- `validateSubjectToken`
unfoldable pub validate_subject_token : GrantRequest → Result Error (Unit {0})
validate_subject_token req =
    if is_empty req.subject_token
    then err invalid_request
    else if is_empty req.subject_token_type
    then err invalid_request
    else if not (req.subject_token_type == urn_access_token)
    then err invalid_request
    else ok tt

-- `validateOptionalTokenTypes`
unfoldable pub validate_optional_types : GrantRequest → Result Error (Unit {0})
validate_optional_types req =
    if not (is_empty req.actor_token) && not (req.actor_token_type == urn_access_token)
    then err invalid_request
    else if not (is_empty req.requested_token_type)
        && not (req.requested_token_type == urn_access_token)
    then err invalid_request
    else ok tt

-- `authenticateCaller`, with an authenticator wired as the container does
unfoldable pub authenticate_caller : GrantRequest → M Client
authenticate_caller req = do
  fail_if (is_empty req.client_id) invalid_request
  client ← authenticate req.client_id req.client_secret
  fail_if (not (has_grant_type client grant_token_exchange)) unauthorized_client
  pure client

-- `assertCanExchange`
unfoldable pub may_exchange : Client → Token → Bool
may_exchange caller subject = not (is_public caller) || subject.client_id == caller.id

-- `tokenValidator.Validate`, whose error becomes invalid_request
unfoldable pub validate_presented : Env → String → M Token
validate_presented env raw w =
    let (r, w') = validate env raw w in (elim r [ ok t ↦ ok t | err _ ↦ err invalid_request ], w')

unfoldable pub validate_actor : Env → String → M (Option Token)
validate_actor env raw =
    if is_empty raw then pure none else (do t ← validate_presented env raw; pure (some t))

-- `resolveExchangeScopes`
unfoldable pub exchange_scopes : List String → List String → Result Error (List String)
exchange_scopes [] available = ok available
exchange_scopes (s ∷ requested) available =
    if all_allowed available (s ∷ requested) then ok (s ∷ requested) else err invalid_request

-- `newActorFromCaller` and `newActorFromToken`
unfoldable pub caller_actor : Client → Actor
caller_actor c = record {
  sub = c.id;
  actor_type = resolved_actor_type c;
  agent_id = agent_id c;
  client_id = c.id;
}

unfoldable pub token_actor : Token → Actor
token_actor t = record {
  sub = t.subject;
  actor_type = t.actor_type;
  agent_id = t.agent_id;
  client_id = t.client_id;
}

-- `buildActChain`
unfoldable pub act_chain : Client → Option Token → Token → List Actor
unfolding caller_actor token_actor
act_chain caller none subject = caller_actor caller ∷ subject.act
act_chain caller (some actor) subject = token_actor actor ∷ subject.act

-- `resolveActor`
unfoldable pub resolve_actor : Client → Option Token → String × String
resolve_actor caller none = (resolved_actor_type caller, agent_id caller)
resolve_actor caller (some actor) = (actor.actor_type, actor.agent_id)

-- The type lookup of `intersectAuthorizationDetails`
unfoldable pub kinds_present : List AuthorizationDetail → List String → Bool
kinds_present [] kinds = true
kinds_present (d ∷ ds) kinds = contains kinds d.kind && kinds_present ds kinds

abbrev pub kinds : List AuthorizationDetail → List String
kinds [] = []
kinds (d ∷ ds) = d.kind ∷ kinds ds

-- `intersectAuthorizationDetails`: a subject without details has no types either.
unfoldable pub narrow_details :
    List AuthorizationDetail → List AuthorizationDetail → Result Error (List AuthorizationDetail)
unfolding kinds_present
narrow_details subject [] = ok subject
narrow_details [] (d ∷ requested) = err invalid_request
narrow_details (s ∷ subject) (d ∷ requested) =
    if kinds_present (d ∷ requested) (kinds (s ∷ subject))
    then ok (d ∷ requested)
    else err invalid_request

-- `resolveTTL`. A difference below zero is below a second too.
unfoldable pub resolve_ttl : Env → ℕ → Token → ℕ
resolve_ttl env at subject =
    let remaining = subject.expires_at - at in
    if ltb env.max_ttl remaining
    then env.max_ttl
    else if ltb remaining second
    then second
    else remaining

-- The token that `Handle` builds.
abbrev pub exchanged_token :
    Env
    → GrantRequest
    → Client
    → Option Token
    → Token
    → List String
    → List AuthorizationDetail
    → ℕ
    → String
    → Token
exchanged_token env req caller actor subject scopes details at id = record no_token {
  id = id;
  client_id = caller.id;
  subject = subject.subject;
  audience = req.audience;
  scopes = scopes;
  actor_type = (resolve_actor caller actor).0;
  agent_id = (resolve_actor caller actor).1;
  act = act_chain caller actor subject;
  authorization_details = details;
  expires_at = at + resolve_ttl env at subject;
  issued_at = at;
  token_type = type_bearer;
}

abbrev pub exchange_response :
    Env → Client → Option Token → Token → List String → ℕ → String → GrantResponse
exchange_response env caller actor subject scopes at raw = record no_response {
  access_token = raw;
  token_type = type_bearer;
  expires_in = resolve_ttl env at subject / second;
  scope = join scopes;
  issued_token_type = urn_access_token;
  actor_type = (resolve_actor caller actor).0;
  agent_id = (resolve_actor caller actor).1;
  subject = subject.subject;
}

-- `Handle`
unfoldable pub exchange : Env → GrantRequest → M GrantResponse
exchange env req = do
  lift (validate_subject_token req)
  lift (validate_optional_types req)
  caller ← authenticate_caller req
  subject ← validate_presented env req.subject_token
  fail_if (not (may_exchange caller subject)) unauthorized_client
  actor ← validate_actor env req.actor_token
  scopes ← lift (exchange_scopes req.scopes subject.scopes)
  fail_if (ltb env.max_depth (depth (act_chain caller actor subject))) invalid_request
  at ← now env
  details ← lift (narrow_details subject.authorization_details req.authorization_details)
  id ← generate_id env
  raw ← issue_access env (exchanged_token env req caller actor subject scopes details at id)
  pure (exchange_response env caller actor subject scopes at raw)
