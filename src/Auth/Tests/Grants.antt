-- ===== src/Auth/Tests/Grants.antt =====
-- The other grants, run on the same world.
use identity_platform_go.Base.{
  inl, ◌>>=◌, ◌≡◌, refl, ok, err, contains, ◌⊎◌, false, ◌∷◌, [], ◌≤◌, ◌<◌, ◌+◌,
}
use identity_platform_go.Base.Dict.{lookup}
use identity_platform_go.Base.Words.{fields}
use identity_platform_go.Auth.Domain.{
  DeviceStatus, device_poll, authorization_pending, access_denied, pending, denied, Error,
  device_expired, resolved_actor_type, agent_id, is_public, depth, no_token, code_expired,
  has_valid_pkce_method,
}
use identity_platform_go.Auth.Requests.{GrantResponse, no_response}
use identity_platform_go.Auth.World.{World, now, second}
use identity_platform_go.Auth.Store.{consume_code}
use identity_platform_go.Auth.Grants.IdToken.{maybe_id_token}
use identity_platform_go.Auth.Grants.Code.{redeem_code, verify_match, issue_tokens}
use identity_platform_go.Auth.Clients.{authenticate_client, authenticate}
use identity_platform_go.Auth.Tokens.{
  generate, generate_id, issue_access, issue_refresh, validate, validate_rs256, token_of_rs256,
}
use identity_platform_go.Auth.Grants.ClientCredentials.{
  client_credentials, validate_client, resolve_scopes, or_default, all_allowed,
}
use identity_platform_go.Auth.Grants.ClientCredentials.Proofs.{Granted, client_credentials-Granted}
use identity_platform_go.Auth.Grants.Refresh.{refresh, validate_refresh, rotate_refresh}
use identity_platform_go.Auth.Grants.Refresh.Rotation.{Rotated, refresh-Rotated, refresh-replay}
use identity_platform_go.Auth.Grants.Device.{
  poll_device, validate_device_client, find_owned, resolve_status, issue_for_approved,
  redeem_device,
}
use identity_platform_go.Auth.Grants.Device.Polls.{
  Polled, poll_device-Polled, poll_device_undecided,
}
use identity_platform_go.Auth.Grants.Exchange.{
  exchange, validate_subject_token, validate_optional_types, authenticate_caller, may_exchange,
  validate_presented, validate_actor, exchange_scopes, act_chain, narrow_details, resolve_ttl,
}
use identity_platform_go.Auth.Grants.Exchange.Delegation.{
  Delegated, exchange-Delegated, resolve_ttl_lem,
}
use identity_platform_go.Auth.Grants.Registry.{Strategy, handle_with, strategies, audited, emit}
use identity_platform_go.Auth.Grants.Registry.Audit.{AnyOf, Audited, handle_with-Audited}
use identity_platform_go.Auth.Tests.Setting.{env, world, web, request, answer, device}

abbrev own_response : GrantResponse
own_response = answer no_response (client_credentials env request world)

abbrev own_after : World
own_after = (client_credentials env request world).1

own_run : client_credentials env request world ≡ (ok own_response, own_after)
unfolding client_credentials ◌>>=◌ validate_client authenticate_client lookup contains
    resolve_scopes all_allowed or_default now generate_id issue_access generate issue_refresh
own_run = refl

client_credentials-Granted_example : Granted env request world own_after own_response
client_credentials-Granted_example =
    client_credentials-Granted env request world own_after own_response own_run

abbrev new_response : GrantResponse
new_response = answer no_response (refresh env request world)

abbrev new_after : World
new_after = (refresh env request world).1

new_run : refresh env request world ≡ (ok new_response, new_after)
unfolding refresh ◌>>=◌ validate_refresh authenticate_client lookup now generate_id issue_access
    generate rotate_refresh issue_refresh
new_run = refl

refresh-Rotated_example : Rotated env request world new_after new_response
refresh-Rotated_example = refresh-Rotated env request world new_after new_response new_run

refresh-replay_example :
    ((e : Error) × ((refresh env request new_after).0 ≡ err e))
    ⊎ (new_response.refresh_token ≡ "old")
refresh-replay_example =
    refresh-replay env request world new_after new_response request new_run refl

abbrev device_answer : GrantResponse
device_answer = answer no_response (poll_device env request world)

abbrev device_after : World
device_after = (poll_device env request world).1

device_run : poll_device env request world ≡ (ok device_answer, device_after)
unfolding poll_device ◌>>=◌ validate_device_client authenticate lookup contains find_owned now
    device_expired resolve_status issue_for_approved redeem_device generate_id issue_access generate
    issue_refresh
device_run = refl

poll_device-Polled_example : Polled env request world device_after device_answer
poll_device-Polled_example =
    poll_device-Polled env request world device_after device_answer (refl, tt) device_run

abbrev delegated_response : GrantResponse
delegated_response = answer no_response (exchange env request world)

abbrev delegated_after : World
delegated_after = (exchange env request world).1

delegated_run : exchange env request world ≡ (ok delegated_response, delegated_after)
unfolding exchange ◌>>=◌ validate_subject_token validate_optional_types authenticate_caller
    authenticate lookup contains validate_presented validate now validate_rs256 may_exchange
    is_public validate_actor exchange_scopes depth act_chain agent_id resolved_actor_type
    narrow_details resolve_ttl generate generate_id issue_access token_of_rs256 fields
delegated_run = refl

exchange-Delegated_example : Delegated env request world delegated_after delegated_response
exchange-Delegated_example =
    exchange-Delegated env request world delegated_after delegated_response delegated_run

abbrev no_saml : Strategy
no_saml = record { supports = λ _. false; handle = refresh env }

abbrev granted_response : GrantResponse
granted_response = answer no_response (handle_with env (strategies env no_saml) request world)

abbrev granted_after : World
granted_after = (handle_with env (strategies env no_saml) request world).1

granted_run :
    handle_with env (strategies env no_saml) request world ≡ (ok granted_response, granted_after)
unfolding handle_with ◌>>=◌ strategies audited redeem_code authenticate_client lookup contains now
    consume_code code_expired verify_match has_valid_pkce_method issue_tokens generate_id
    issue_access generate issue_refresh maybe_id_token emit
granted_run = refl

handle_with-Audited_example :
    AnyOf (λ s. Audited env s request world granted_after granted_response) (strategies env no_saml)
handle_with-Audited_example =
    handle_with-Audited env (strategies env no_saml) request world granted_after granted_response
      granted_run

resolve_ttl_lem_example :
    ((resolve_ttl env 5 no_token ≤ env.max_ttl) ⊎ (resolve_ttl env 5 no_token ≡ second))
    × ((5 + resolve_ttl env 5 no_token ≤ 0)
        ⊎ ((0 < 5 + second) × (resolve_ttl env 5 no_token ≡ second)))
resolve_ttl_lem_example = resolve_ttl_lem env 5 no_token

abbrev waiting : World
waiting = record world {
  devices = record {
    by_device_code = ("d", record device { status = pending }) ∷ [];
    user_code_index = ("u", "d") ∷ [];
  };
}

live_device : device_expired (record device { status = pending }) (env.clock 0) ≡ false
unfolding device_expired
live_device = refl

poll_device_undecided_example :
    ((DeviceStatus.pending ≡ pending)
      × (poll_device env request waiting
          ≡ (err (device_poll authorization_pending), record waiting { readings = 1 })))
    ⊎ ((DeviceStatus.pending ≡ denied)
        × (poll_device env request waiting
            ≡ (err (device_poll access_denied), record waiting { readings = 1 })))
unfolding lookup contains
poll_device_undecided_example =
    poll_device_undecided env request waiting web (record device { status = pending }) refl refl
      refl refl refl live_device refl (inl refl)
