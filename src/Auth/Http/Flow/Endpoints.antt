-- ===== src/Auth/Http/Flow/Endpoints.antt =====
-- The other handlers leave the challenges and the codes backed.
use identity_platform_go.Base.{
  arith, ℕ, ◌≡◌, String, List, [], ◌∷◌, Option, Option-cases, Bool-cases, inl, inr, All,
}
use identity_platform_go.Base.Dict.{Dict}
use identity_platform_go.Base.Keeps.{Keeps, keeps_rules, Keeps-bind, Keeps-fail, Keeps-if}
use identity_platform_go.Auth.Domain.{Client}
use identity_platform_go.Auth.Requests.{GrantRequest}
use identity_platform_go.Auth.World.{Env, World, Event}
use identity_platform_go.Auth.TokenService.{introspect, revoke}
use identity_platform_go.Auth.Tokens.{validate}
use identity_platform_go.Auth.Dpop.{Proof, check_proof, use_proof, validate_proof}
use identity_platform_go.Auth.Grants.Registry.{
  Strategy, emit, audited, handle_with, strategies, grant,
}
use identity_platform_go.Auth.Grants.Saml.{Saml, saml_strategy}
use identity_platform_go.Auth.Http.Messages.{HttpRequest, HandlerEvent, Reply, Site, DeviceDecision}
use identity_platform_go.Auth.Http.Throttle.{throttle}
use identity_platform_go.Auth.Http.Token.{parse_grant_request, proof_of_possession, handle_token}
use identity_platform_go.Auth.Http.Inspection.{
  authenticate_credentials, authenticate_introspection, emit_event, run_introspection, do_revoke,
  handle_introspect, handle_revoke,
}
use identity_platform_go.Auth.Http.DeviceEndpoint.{
  generate_user_code, issue_device, post_device_authorization, apply_decision, decode_decision_body,
  post_decision,
}
use identity_platform_go.Auth.Http.Flow.Backing.{IsGrounded, IsGrounded-frame, now-IsGrounded}
use identity_platform_go.Auth.Http.Flow.Calls.{authenticate-IsGrounded}
use identity_platform_go.Auth.Http.Flow.Grants.{
  client_credentials-IsGrounded, redeem_code-IsGrounded, refresh-IsGrounded, exchange-IsGrounded,
  poll_device-IsGrounded, saml-IsGrounded, validate-IsGrounded,
}
use identity_platform_go.Auth.Http.Flow.Handlers.{Grounded, call-Grounded, handler_rules}

introspect-frame :
    (env : Env) (raw : String) (w : World)
    → ((introspect env raw w).1.clients ≡ (validate env raw w).1.clients)
      × ((introspect env raw w).1.challenges ≡ (validate env raw w).1.challenges)
      × ((introspect env raw w).1.codes ≡ (validate env raw w).1.codes)
unfolding introspect
introspect-frame env raw w = ground arith

module _ {cs : Dict Client} where
  emit-IsGrounded : (env : Env) (event : Event) → Keeps (IsGrounded cs) (emit env event)
  unfolding emit
  emit-IsGrounded env event = record {
    at = λ w h. elim (Bool-cases (env.sink w.emissions)) [ inl q ↦ rw q h | inr q ↦ rw q h ];
  }

  audited-IsGrounded :
      (env : Env) (s : Strategy) (req : GrantRequest)
      → Keeps (IsGrounded cs) (s.handle req)
      → Keeps (IsGrounded cs) (audited env s req)
  unfolding audited
  audited-IsGrounded env s req h = Keeps-bind _ _ h λ resp. search (keeps_rules, emit-IsGrounded)

  handle_with-IsGrounded :
      (env : Env) (ss : List Strategy) (req : GrantRequest)
      → All (λ s. Keeps (IsGrounded cs) (s.handle req)) ss
      → Keeps (IsGrounded cs) (handle_with env ss req)
  unfolding handle_with
  handle_with-IsGrounded env [] req h = Keeps-fail _
  handle_with-IsGrounded env (s ∷ ss) req h =
      Keeps-if _ _ _ (audited-IsGrounded env s req h.0) (handle_with-IsGrounded env ss req h.1)

  grant-IsGrounded :
      (env : Env) (saml : Saml) (req : GrantRequest)
      → Keeps (IsGrounded cs) (grant env (saml_strategy env saml) req)
  unfolding grant strategies saml_strategy
  grant-IsGrounded env saml req = handle_with-IsGrounded env _ req (
    client_credentials-IsGrounded env req,
    (
      redeem_code-IsGrounded env req,
      (
        refresh-IsGrounded env req,
        (
          exchange-IsGrounded env req,
          (poll_device-IsGrounded env req, (saml-IsGrounded env saml req, tt)),
        ),
      ),
    ),
  )

  throttle-Grounded :
      (env : Env) (site : Site) (r : HttpRequest) → Keeps (Grounded cs) (throttle env site r)
  unfolding throttle
  throttle-Grounded env site r =
      Keeps-bind _ _ (call-Grounded _ _ (now-IsGrounded env)) λ t. record { at = λ s h. h }

  parse-Grounded :
      (site : Site) (r : HttpRequest) → Keeps (Grounded cs) (parse_grant_request site r)
  unfolding parse_grant_request
  parse-Grounded site r = search keeps_rules depth 20

  check_proof-IsGrounded :
      (env : Env) (p : Proof) (htm htu : String) → Keeps (IsGrounded cs) (check_proof env p htm htu)
  unfolding check_proof
  check_proof-IsGrounded env p htm htu = search (keeps_rules, now-IsGrounded) depth 20

  use_proof-IsGrounded :
      (env : Env) (jti : String) (exp : ℕ) → Keeps (IsGrounded cs) (use_proof env jti exp)
  unfolding use_proof
  use_proof-IsGrounded env jti exp =
      Keeps-bind _ _ (now-IsGrounded env) λ t. record { at = λ w h. h }

  validate_proof-IsGrounded :
      (env : Env) (parse : String → Option Proof) (raw htm htu : String)
      → Keeps (IsGrounded cs) (validate_proof env parse raw htm htu)
  unfolding validate_proof
  validate_proof-IsGrounded env parse raw htm htu =
      search (keeps_rules, check_proof-IsGrounded, use_proof-IsGrounded) depth 20

  possession-Grounded :
      (env : Env) (site : Site) (r : HttpRequest)
      → Keeps (Grounded cs) (proof_of_possession env site r)
  unfolding proof_of_possession
  possession-Grounded env site r = search (handler_rules, validate_proof-IsGrounded)

  pub token-Grounded :
      (env : Env) (site : Site) (saml : Saml) (r : HttpRequest)
      → Keeps (Grounded cs) (handle_token env site (saml_strategy env saml) r)
  unfolding handle_token
  token-Grounded env site saml r =
      search
        (handler_rules, throttle-Grounded, parse-Grounded, possession-Grounded, grant-IsGrounded)
        depth 20

  credentials-Grounded : (r : HttpRequest) → Keeps (Grounded cs) (authenticate_credentials r)
  unfolding authenticate_credentials
  credentials-Grounded r = search (handler_rules, authenticate-IsGrounded)

  introspection-Grounded :
      (site : Site) (r : HttpRequest) → Keeps (Grounded cs) (authenticate_introspection site r)
  unfolding authenticate_introspection
  introspection-Grounded site r = search (keeps_rules, credentials-Grounded)

  event-Grounded :
      (env : Env) (e : HandlerEvent) (failed : Reply)
      → Keeps (Grounded cs) (emit_event env e failed)
  unfolding emit_event
  event-Grounded env e failed = record {
    at = λ s h. elim (Bool-cases (env.sink s.world.emissions)) [ inl q ↦ rw q h | inr q ↦ rw q h ];
  }

  run_introspection-Grounded :
      (env : Env) (token : String) → Keeps (Grounded cs) (run_introspection env token)
  unfolding run_introspection
  run_introspection-Grounded env token = record {
    at = λ s h.
        let (a, b, c) = introspect-frame env token s.world in
        IsGrounded-frame (validate env token s.world).1 (introspect env token s.world).1 a b c
          ((validate-IsGrounded env token).at s.world h);
  }

  pub introspect-Grounded :
      (env : Env) (site : Site) (r : HttpRequest)
      → Keeps (Grounded cs) (handle_introspect env site r)
  unfolding handle_introspect
  introspect-Grounded env site r =
      search
        (
          handler_rules, throttle-Grounded, introspection-Grounded, run_introspection-Grounded,
          event-Grounded,
        )
        depth 20

  do_revoke-Grounded : (token : String) → Keeps (Grounded cs) (do_revoke token)
  unfolding do_revoke revoke
  do_revoke-Grounded token = record { at = λ s h. h }

  pub revoke-Grounded :
      (env : Env) (site : Site) (r : HttpRequest) → Keeps (Grounded cs) (handle_revoke env site r)
  unfolding handle_revoke
  revoke-Grounded env site r =
      search
        (handler_rules, throttle-Grounded, credentials-Grounded, do_revoke-Grounded, event-Grounded)
        depth 20

  user_code-IsGrounded : (site : Site) → Keeps (IsGrounded cs) (generate_user_code site)
  unfolding generate_user_code
  user_code-IsGrounded site = record {
    at = λ w h. elim (Option-cases (site.random_bytes w.draws)) [
      | inl q ↦ rw q h
      | inr (b, q) ↦ rw q h
    ];
  }

  issue_device-Grounded :
      (env : Env) (site : Site) (client : Client) (scope : String)
      → Keeps (Grounded cs) (issue_device env site client scope)
  unfolding issue_device
  issue_device-Grounded env site client scope =
      search (handler_rules, user_code-IsGrounded) depth 20

  pub device-Grounded :
      (env : Env) (site : Site) (r : HttpRequest)
      → Keeps (Grounded cs) (post_device_authorization env site r)
  unfolding post_device_authorization
  device-Grounded env site r =
      search (handler_rules, authenticate-IsGrounded, issue_device-Grounded) depth 20

  decision-IsGrounded :
      (env : Env) (body : DeviceDecision) → Keeps (IsGrounded cs) (apply_decision env body)
  unfolding apply_decision
  decision-IsGrounded env body = Keeps-bind _ _ (now-IsGrounded env) λ t. record { at = λ w h. h }

  decode-Grounded :
      (site : Site) (r : HttpRequest) → Keeps (Grounded cs) (decode_decision_body site r)
  unfolding decode_decision_body
  decode-Grounded site r = search keeps_rules

  pub decision-Grounded :
      (env : Env) (site : Site) (r : HttpRequest) → Keeps (Grounded cs) (post_decision env site r)
  unfolding post_decision
  decision-Grounded env site r =
      search (handler_rules, decode-Grounded, decision-IsGrounded) depth 20
