-- ===== src/Auth/Http/Flow/Grants.antt =====
-- Each grant leaves the challenges alone and adds no code.
use identity_platform_go.Base.{
  arith, subst, sym, ℕ, ◌≡◌, some, none, String, List, Option, Option-cases, Bool-cases, inl, inr,
  fail, ltb,
}
use identity_platform_go.Base.Dict.{Dict, Entries, Entries-erase, lookup, erase}
use identity_platform_go.Base.Keeps.{
  Keeps, keeps_rules, Keeps-bind, Keeps-fail, Keeps-still, Keeps-lift,
}
use identity_platform_go.Auth.Domain.{
  Client, AuthorizationCode, Error, DeviceAuthorization, DeviceStatus, pending, approved, denied,
  other, device_poll, authorization_pending, access_denied, expired_token, RefreshToken,
}
use identity_platform_go.Auth.Requests.{GrantRequest, GrantResponse}
use identity_platform_go.Auth.Store.{consume_code}
use identity_platform_go.Auth.World.{Env, World, now}
use identity_platform_go.Auth.Tokens.{validate}
use identity_platform_go.Auth.Grants.IdToken.{maybe_id_token}
use identity_platform_go.Auth.Grants.ClientCredentials.{validate_client, client_credentials}
use identity_platform_go.Auth.Grants.Code.{consume, issue_tokens, redeem_code}
use identity_platform_go.Auth.Grants.Refresh.{
  forget_refresh, check_expiry, stored_refresh, validate_refresh, rotate_refresh, refresh,
}
use identity_platform_go.Auth.Grants.Exchange.{
  authenticate_caller, validate_presented, validate_actor, exchange,
}
use identity_platform_go.Auth.Grants.Device.{
  validate_device_client, find_owned, redeem_device, issue_for_approved, resolve_status,
  poll_device,
}
use identity_platform_go.Auth.Grants.Saml.{
  Saml, check_conditions, check_subject, validate_saml, issue_saml, saml_bearer, Conditions,
  Subject,
}
use identity_platform_go.Auth.Http.Flow.Backing.{IsGrounded, BackedCode, now-IsGrounded}
use identity_platform_go.Auth.Http.Flow.Calls.{basics}

stored_refresh-still : (raw : String) (w : World) → (stored_refresh raw w).1 ≡ w
unfolding stored_refresh
stored_refresh-still raw w = ground arith

consume_code-Entries :
    (P : String → AuthorizationCode → Type 0) (t : ℕ) (raw : String) (d : Dict AuthorizationCode)
    → Entries P d
    → Entries P (consume_code t raw d).1
unfolding consume_code
consume_code-Entries P t raw d h = elim (Option-cases (lookup raw d)) [
  | inl q ↦ let same : (consume_code t raw d).1 ≡ d = ground arith in subst (Entries P) (sym same) h
  | inr (c, q) ↦
      let gone : (consume_code t raw d).1 ≡ erase raw d = ground arith in
      subst (Entries P) (sym gone) (Entries-erase P raw d h)
]

module _ {cs : Dict Client} where
  validate_client-IsGrounded :
      (env : Env) (req : GrantRequest) → Keeps (IsGrounded cs) (validate_client env req)
  unfolding validate_client
  validate_client-IsGrounded env req = search basics

  pub client_credentials-IsGrounded :
      (env : Env) (req : GrantRequest) → Keeps (IsGrounded cs) (client_credentials env req)
  unfolding client_credentials
  client_credentials-IsGrounded env req = search (basics, validate_client-IsGrounded) depth 20

  consume-IsGrounded : (env : Env) (raw : String) → Keeps (IsGrounded cs) (consume env raw)
  unfolding consume
  consume-IsGrounded env raw =
      Keeps-bind _ _ (now-IsGrounded env) λ t. record {
        at = λ w h. (h.0, h.1, consume_code-Entries (BackedCode cs) t raw w.codes h.2);
      }

  id_token-IsGrounded :
      (env : Env) (client_id : String) (code : AuthorizationCode) (raw : String) (at : ℕ)
      (account : String)
      → Keeps (IsGrounded cs) (maybe_id_token env client_id code raw at account)
  unfolding maybe_id_token
  id_token-IsGrounded env client_id code raw at account = elim (Option-cases env.sign_id_token) [
    | inl q ↦ rw q (search keeps_rules)
    | inr (sign, q) ↦ rw q (search keeps_rules)
  ]

  issue_tokens-IsGrounded :
      (env : Env) (client : Client) (code : AuthorizationCode) (jkt : String)
      → Keeps (IsGrounded cs) (issue_tokens env client code jkt)
  unfolding issue_tokens
  issue_tokens-IsGrounded env client code jkt = search (basics, id_token-IsGrounded) depth 20

  pub redeem_code-IsGrounded :
      (env : Env) (req : GrantRequest) → Keeps (IsGrounded cs) (redeem_code env req)
  unfolding redeem_code
  redeem_code-IsGrounded env req =
      search (basics, consume-IsGrounded, issue_tokens-IsGrounded) depth 20

  stored_refresh-IsGrounded : (raw : String) → Keeps (IsGrounded cs) (stored_refresh raw)
  stored_refresh-IsGrounded raw = Keeps-still _ (stored_refresh-still raw)

  check_expiry-IsGrounded :
      (env : Env) (raw : String) (rt : RefreshToken)
      → Keeps (IsGrounded cs) (check_expiry env raw rt)
  unfolding check_expiry now forget_refresh
  check_expiry-IsGrounded env raw rt = record {
    at = λ w h. elim (Bool-cases (ltb rt.expires_at (env.clock w.readings))) [
      | inl q ↦ rw q h
      | inr q ↦ rw q h
    ];
  }

  forget_refresh-IsGrounded : (raw : String) → Keeps (IsGrounded cs) (forget_refresh raw)
  unfolding forget_refresh
  forget_refresh-IsGrounded raw = record { at = λ w h. h }

  validate_refresh-IsGrounded :
      (env : Env) (req : GrantRequest) → Keeps (IsGrounded cs) (validate_refresh env req)
  unfolding validate_refresh
  validate_refresh-IsGrounded env req =
      search (basics, stored_refresh-IsGrounded, check_expiry-IsGrounded) depth 20

  rotate_refresh-IsGrounded :
      (env : Env) (raw : String) (rt : RefreshToken) (at : ℕ)
      → Keeps (IsGrounded cs) (rotate_refresh env raw rt at)
  unfolding rotate_refresh
  rotate_refresh-IsGrounded env raw rt at = search (basics, forget_refresh-IsGrounded) depth 20

  pub refresh-IsGrounded :
      (env : Env) (req : GrantRequest) → Keeps (IsGrounded cs) (refresh env req)
  unfolding refresh
  refresh-IsGrounded env req =
      search (basics, validate_refresh-IsGrounded, rotate_refresh-IsGrounded) depth 20

  pub validate-IsGrounded : (env : Env) (raw : String) → Keeps (IsGrounded cs) (validate env raw)
  unfolding validate
  validate-IsGrounded env raw = search basics

  validate_presented-IsGrounded :
      (env : Env) (raw : String) → Keeps (IsGrounded cs) (validate_presented env raw)
  unfolding validate_presented
  validate_presented-IsGrounded env raw = record {
    at = λ w h. (validate-IsGrounded env raw).at w h;
  }

  validate_actor-IsGrounded :
      (env : Env) (raw : String) → Keeps (IsGrounded cs) (validate_actor env raw)
  unfolding validate_actor
  validate_actor-IsGrounded env raw = search (keeps_rules, validate_presented-IsGrounded)

  caller-IsGrounded : (req : GrantRequest) → Keeps (IsGrounded cs) (authenticate_caller req)
  unfolding authenticate_caller
  caller-IsGrounded req = search basics

  pub exchange-IsGrounded :
      (env : Env) (req : GrantRequest) → Keeps (IsGrounded cs) (exchange env req)
  unfolding exchange
  exchange-IsGrounded env req =
      search (basics, validate_presented-IsGrounded, validate_actor-IsGrounded, caller-IsGrounded)
        depth 40

  device_client-IsGrounded :
      (req : GrantRequest) → Keeps (IsGrounded cs) (validate_device_client req)
  unfolding validate_device_client
  device_client-IsGrounded req = search basics

  find_owned-IsGrounded :
      (env : Env) (dc client_id : String) → Keeps (IsGrounded cs) (find_owned env dc client_id)
  unfolding find_owned
  find_owned-IsGrounded env dc client_id =
      Keeps-bind _ _ (now-IsGrounded env) λ t. Keeps-still _ λ w. ground arith

  redeem_device-IsGrounded :
      (env : Env) (dc : String) → Keeps (IsGrounded cs) (redeem_device env dc)
  unfolding redeem_device
  redeem_device-IsGrounded env dc =
      Keeps-bind _ _ (now-IsGrounded env) λ t. record { at = λ w h. h }

  approved-IsGrounded :
      (env : Env) (dc : String) (client : Client)
      → Keeps (IsGrounded cs) (issue_for_approved env dc client)
  unfolding issue_for_approved
  approved-IsGrounded env dc client = search (basics, redeem_device-IsGrounded) depth 20

  status-IsGrounded :
      (env : Env) (a : DeviceAuthorization) (client : Client)
      → Keeps (IsGrounded cs) (resolve_status env a client)
  unfolding resolve_status
  status-IsGrounded env a client = go a.status
    where
      go :
          (s : DeviceStatus)
          → Keeps {E = Error} {A = GrantResponse} (IsGrounded cs) (elim s [
            | pending ↦ fail (device_poll authorization_pending)
            | denied ↦ fail (device_poll access_denied)
            | approved ↦ issue_for_approved env a.device_code client
            | other _ ↦ fail (device_poll expired_token)
          ])
      go pending = Keeps-fail _
      go denied = Keeps-fail _
      go approved = approved-IsGrounded env a.device_code client
      go (other _) = Keeps-fail _

  pub poll_device-IsGrounded :
      (env : Env) (req : GrantRequest) → Keeps (IsGrounded cs) (poll_device env req)
  unfolding poll_device
  poll_device-IsGrounded env req =
      search (basics, device_client-IsGrounded, find_owned-IsGrounded, status-IsGrounded) depth 20

  conditions-IsGrounded :
      (env : Env) (c : Option Conditions) (audience : String)
      → Keeps (IsGrounded cs) (check_conditions env c audience)
  unfolding check_conditions
  conditions-IsGrounded env none audience = Keeps-lift _
  conditions-IsGrounded env (some c) audience = search basics

  subject-IsGrounded :
      (env : Env) (s : Option Subject) (recipient : String)
      → Keeps (IsGrounded cs) (check_subject env s recipient)
  unfolding check_subject
  subject-IsGrounded env none recipient = Keeps-lift _
  subject-IsGrounded env (some s) recipient = search basics depth 20

  validate_saml-IsGrounded :
      (env : Env) (saml : Saml) (raw certificate : String)
      → Keeps (IsGrounded cs) (validate_saml env saml raw certificate)
  unfolding validate_saml
  validate_saml-IsGrounded env saml raw certificate =
      search (basics, conditions-IsGrounded, subject-IsGrounded) depth 20

  issue_saml-IsGrounded :
      (env : Env) (client : Client) (subject : String) (scopes : List String)
      → Keeps (IsGrounded cs) (issue_saml env client subject scopes)
  unfolding issue_saml
  issue_saml-IsGrounded env client subject scopes = search basics depth 20

  pub saml-IsGrounded :
      (env : Env) (saml : Saml) (req : GrantRequest)
      → Keeps (IsGrounded cs) (saml_bearer env saml req)
  unfolding saml_bearer
  saml-IsGrounded env saml req =
      search (basics, validate_saml-IsGrounded, issue_saml-IsGrounded) depth 20
