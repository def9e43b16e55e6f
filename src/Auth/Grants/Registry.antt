-- ===== src/Auth/Grants/Registry.antt =====
-- GrantStrategyRegistry of grant_strategy.go: the strategy for a grant type, and the audit event
-- that goes before each token.
pub mod Audit
use identity_platform_go.Base.{
  ℕ, suc, ◌+◌, Bool, true, false, String, List, [], ◌∷◌, ◌++◌, Result, ok, err, ◌>>=◌, ◌>>◌, fail,
  pure, not, ◌==◌, if◌then◌else◌, is_empty,
}
use identity_platform_go.Auth.Domain.{
  Error, audit_failed, unsupported_grant_type, actor_user, actor_service, grant_client_credentials,
  grant_authorization_code, grant_refresh_token, grant_token_exchange, grant_device_code,
}
use identity_platform_go.Auth.Requests.{GrantRequest, GrantResponse}
use identity_platform_go.Auth.World.{Env, World, Event, M}
use identity_platform_go.Auth.Grants.ClientCredentials.{client_credentials}
use identity_platform_go.Auth.Grants.Code.{redeem_code}
use identity_platform_go.Auth.Grants.Refresh.{refresh}
use identity_platform_go.Auth.Grants.Exchange.{exchange}
use identity_platform_go.Auth.Grants.Device.{poll_device}

-- `GrantStrategy`
pub record Strategy : Type 0 where
  pub supports : String → Bool
  pub handle : GrantRequest → M GrantResponse

-- `tokenIssuedEvent`
unfoldable pub token_issued_event : GrantRequest → GrantResponse → Event
token_issued_event req resp = record {
  actor_type = if is_empty resp.actor_type then actor_service else resp.actor_type;
  attr_actor_type = resp.actor_type;
  actor_id = if resp.actor_type == actor_user then resp.subject else req.client_id;
  subject_id = resp.subject;
  client_id = req.client_id;
  grant_type = req.grant_type;
  scope = resp.scope;
  expires_in = resp.expires_in;
  has_id_token = not (is_empty resp.id_token);
  has_refresh = not (is_empty resp.refresh_token);
  agent_id = resp.agent_id;
}

-- `emitter.Emit`: an event that the sink does not take is an error.
unfoldable pub emit : Env → Event → M (Unit {0})
emit env event w =
    if env.sink w.emissions
    then (ok tt, record w { emissions = suc w.emissions; events = event ∷ w.events })
    else (err audit_failed, record w { emissions = suc w.emissions })

-- A strategy's answer, with its event.
unfoldable pub audited : Env → Strategy → GrantRequest → M GrantResponse
audited env s req = do resp ← s.handle req; emit env (token_issued_event req resp); pure resp

-- `Handle`
unfoldable pub handle_with : Env → List Strategy → GrantRequest → M GrantResponse
handle_with env [] req = fail unsupported_grant_type
handle_with env (s ∷ strategies) req =
    let rest = handle_with env strategies req in
    if s.supports req.grant_type then audited env s req else rest

-- The strategies in the order in which the container registers them; the last one is for SAML
-- assertions.
unfoldable pub strategies : Env → Strategy → List Strategy
strategies env saml =
    record { supports = ◌==◌ grant_client_credentials; handle = client_credentials env }
    ∷ record { supports = ◌==◌ grant_authorization_code; handle = redeem_code env }
    ∷ record { supports = ◌==◌ grant_refresh_token; handle = refresh env }
    ∷ record { supports = ◌==◌ grant_token_exchange; handle = exchange env }
    ∷ record { supports = ◌==◌ grant_device_code; handle = poll_device env }
    ∷ saml
    ∷ []

unfoldable pub grant : Env → Strategy → GrantRequest → M GrantResponse
grant env saml req = handle_with env (strategies env saml) req
