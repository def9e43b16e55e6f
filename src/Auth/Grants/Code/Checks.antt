-- ===== src/Auth/Grants/Code/Checks.antt =====
-- The stages of a redemption that succeeds, and what its comparisons have shown.
use identity_platform_go.Base.{
  ◌>>=◌, ℕ, ◌≡◌, true, false, inl, inr, String, ok, arith, Result-cases, eq_iff, suc,
}
use identity_platform_go.Auth.Domain.{
  Client, AuthorizationCode, has_grant_type, grant_authorization_code, code_expired,
  has_valid_pkce_method,
}
use identity_platform_go.Auth.Requests.{GrantRequest, GrantResponse}
use identity_platform_go.Auth.Store.{consume_code}
use identity_platform_go.Auth.World.{Env, World, now}
use identity_platform_go.Auth.Clients.{authenticate_client}
use identity_platform_go.Auth.Grants.Code.{verify_match, issue_tokens, redeem_code}

-- What the request and the consumed code agree on.
pub record Matches (env : Env) (code : AuthorizationCode) (req : GrantRequest) (at : ℕ)
    : Type 0 where
  pub client_id : code.client_id ≡ req.client_id
  pub redirect_uri : code.redirect_uri ≡ req.redirect_uri
  pub live : code_expired code at ≡ false
  pub method : code.code_challenge_method ≡ "S256"
  pub verifier : env.s256 req.code_verifier ≡ code.code_challenge

pub verify_match-Matches :
    (env : Env) (code : AuthorizationCode) (req : GrantRequest) (at : ℕ)
    → verify_match env code req at ≡ ok tt
    → Matches env code req at
unfolding verify_match has_valid_pkce_method
verify_match-Matches env code req at e = ground (
  arith,
  eq_iff code.client_id req.client_id,
  eq_iff code.redirect_uri req.redirect_uri,
  eq_iff code.code_challenge_method "S256",
  eq_iff (env.s256 req.code_verifier) code.code_challenge,
)

-- The state in which the tokens are issued, behind an authentication that ended in `w₁`.
abbrev pub consumed : Env → String → World → World
consumed env raw w₁ = record w₁ {
  readings = suc (suc w₁.readings);
  codes = (consume_code (env.clock w₁.readings) raw w₁.codes).1;
}

pub record Stages (env : Env) (req : GrantRequest) (w w' : World) (resp : GrantResponse)
    : Type 0 where
  pub client : Client
  pub w₁ : World
  pub code : AuthorizationCode
  pub authenticated : authenticate_client env req w ≡ (ok client, w₁)
  pub granted : has_grant_type client grant_authorization_code ≡ true
  pub redeemed : (consume_code (env.clock w₁.readings) req.code w₁.codes).0 ≡ ok code
  pub matched : verify_match env code req (env.clock (suc w₁.readings)) ≡ ok tt
  pub issued : issue_tokens env client code req.dpop_jkt (consumed env req.code w₁) ≡ (ok resp, w')

module _ (env : Env) (req : GrantRequest) (w w' : World) (resp : GrantResponse)
    (e : redeem_code env req w ≡ (ok resp, w')) where
  redeem_authenticated : (c : Client) × ((authenticate_client env req w).0 ≡ ok c)
  unfolding redeem_code ◌>>=◌
  redeem_authenticated = elim (Result-cases (authenticate_client env req w).0) [
    | inl (c, q) ↦ (c, q)
    | inr (x, q) ↦ absurd (ground arith)
  ]

  module _ (client : Client) (w₁ : World)
      (q : authenticate_client env req w ≡ (ok client, w₁)) where
    redeem_granted : has_grant_type client grant_authorization_code ≡ true
    unfolding redeem_code ◌>>=◌
    redeem_granted = ground arith

    redeem_consumed :
        (c : AuthorizationCode) × ((consume_code (env.clock w₁.readings) req.code w₁.codes).0
          ≡ ok c)
    unfolding redeem_code now ◌>>=◌
    redeem_consumed =
        elim (Result-cases (consume_code (env.clock w₁.readings) req.code w₁.codes).0) [
          | inl (c, r) ↦ (c, r)
          | inr (x, r) ↦ absurd (ground arith)
        ]

    module _ (code : AuthorizationCode)
        (r : (consume_code (env.clock w₁.readings) req.code w₁.codes).0 ≡ ok code) where
      redeem_matched : verify_match env code req (env.clock (suc w₁.readings)) ≡ ok tt
      unfolding redeem_code now ◌>>=◌
      redeem_matched = ground arith

      redeem_issued :
          issue_tokens env client code req.dpop_jkt (consumed env req.code w₁) ≡ (ok resp, w')
      unfolding redeem_code now ◌>>=◌
      redeem_issued = ground (arith, redeem_matched)

  -- A redemption that succeeds has gone through all its stages.
  pub redeem-Stages : Stages env req w w' resp
  redeem-Stages =
      let (client, q) = redeem_authenticated in
      let w₁ : World = (authenticate_client env req w).1 in
      let q' : authenticate_client env req w ≡ (ok client, w₁) = ground arith in
      let (code, r) = redeem_consumed client w₁ q' in
      record {
        client = client;
        w₁ = w₁;
        code = code;
        authenticated = q';
        granted = redeem_granted client w₁ q';
        redeemed = r;
        matched = redeem_matched client w₁ q' code r;
        issued = redeem_issued client w₁ q' code r;
      }
