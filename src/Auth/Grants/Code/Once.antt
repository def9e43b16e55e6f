-- ===== src/Auth/Grants/Code/Once.antt =====
-- Handle of AuthorizationCodeStrategy from end to end, and repeated.
use identity_platform_go.Base.{
  ◌>>=◌, suc, ℕ, ◌≡◌, true, inl, inr, none, some, String, ok, err, arith, Result-cases, sym, ◌∙◌,
  ap, false, subst,
}
use identity_platform_go.Base.Dict.{Dict, lookup, lookup-erase_self}
use identity_platform_go.Auth.Domain.{
  Client, AuthorizationCode, has_grant_type, grant_authorization_code, Error, code_expired,
}
use identity_platform_go.Auth.Requests.{GrantRequest, GrantResponse}
use identity_platform_go.Auth.Store.{consume_code}
use identity_platform_go.Auth.Store.Instances.{consume_code-ok}
use identity_platform_go.Auth.World.{Env, World, now}
use identity_platform_go.Auth.Clients.{authenticate_client}
use identity_platform_go.Auth.Clients.Proofs.{
  SameStores, Authentic, behind, authenticate_client-same, authenticate_client_sound,
}
use identity_platform_go.Auth.Tokens.{generate_id, issue_access, issue_refresh}
use identity_platform_go.Auth.Grants.IdToken.{maybe_id_token}
use identity_platform_go.Auth.Grants.Code.{validate_fields, issue_tokens, redeem_code}
use identity_platform_go.Auth.Grants.Code.Checks.{
  Matches, verify_match-Matches, Stages, redeem-Stages, consumed,
}
use identity_platform_go.Auth.Grants.Code.Redeem.{Issued, issue_tokens-Issued}

-- What holds of a redemption that answers `resp`. The code is compared at the second reading of the
-- clock behind the authentication; the first is that of the repository.
pub record Redeemed (env : Env) (req : GrantRequest) (w w' : World) (resp : GrantResponse)
    : Type 0 where
  pub client : Client
  pub code : AuthorizationCode
  pub registered : lookup req.client_id w.clients ≡ some client
  pub authentic : Authentic env client w (behind env req w) req
  pub granted : has_grant_type client grant_authorization_code ≡ true
  pub saved : lookup req.code w.codes ≡ some code
  pub unexpired : code_expired code (env.clock (behind env req w).readings) ≡ false
  pub matched : Matches env code req (env.clock (suc (behind env req w).readings))
  pub spent : lookup req.code w'.codes ≡ none
  pub issued :
      Issued env client code req.dpop_jkt (consumed env req.code (behind env req w)) w' resp

-- A redemption answers with tokens only if the client is registered, has authenticated and is
-- allowed the grant, the code was stored, was issued to that client and redirect URI, is not expired
-- at the clock's two readings behind the authentication, and its S256 challenge is the hash of the
-- verifier. The tokens are then stored for the code's subject with the code's scopes, and the code
-- is gone.
pub redeem_code_sound :
    (env : Env) (req : GrantRequest) (w w' : World) (resp : GrantResponse)
    → redeem_code env req w ≡ (ok resp, w')
    → Redeemed env req w w' resp
redeem_code_sound env req w w' resp e =
    let stages : Stages env req w w' resp = redeem-Stages env req w w' resp e in
    let w₁ = stages.w₁ in
    let same : SameStores w (behind env req w) = authenticate_client-same env req w in
    let there : w₁ ≡ behind env req w = sym (ap (λ p. p.1) stages.authenticated) in
    let codes : w₁.codes ≡ w.codes = ap (λ x. x.codes) there ∙ same.codes in
    let (found, unexpired, gone) =
      consume_code-ok (env.clock w₁.readings) req.code w₁.codes stages.code stages.redeemed in
    let issued =
      issue_tokens-Issued env stages.client stages.code req.dpop_jkt (consumed env req.code w₁) w'
        resp stages.issued in
    let (registered, authentic) =
      authenticate_client_sound env req w w₁ stages.client stages.authenticated in
    let matched =
      verify_match-Matches env stages.code req (env.clock (suc w₁.readings)) stages.matched in
    record {
      client = stages.client;
      code = stages.code;
      registered = registered;
      authentic = subst (λ x. Authentic env stages.client w x req) there authentic;
      granted = stages.granted;
      saved = ap (lookup req.code) (sym codes) ∙ found;
      unexpired = ap (λ x. code_expired stages.code (env.clock x.readings)) (sym there) ∙ unexpired;
      matched = subst (λ x. Matches env stages.code req (env.clock (suc x.readings))) there matched;
      spent = ap (lookup req.code) issued.codes ∙ gone;
      issued =
          subst
            (λ x.
              Issued env stages.client stages.code req.dpop_jkt (consumed env req.code x) w' resp)
            there issued;
    }

-- A request whose code is not stored is refused, and stores no token.
pub redeem_code-unknown :
    (env : Env) (req : GrantRequest) (w : World)
    → lookup req.code w.codes ≡ none
    → ((e : Error) × ((redeem_code env req w).0 ≡ err e))
      × ((redeem_code env req w).1.tokens ≡ w.tokens)
      × ((redeem_code env req w).1.refresh_tokens ≡ w.refresh_tokens)
unfolding redeem_code now consume_code ◌>>=◌
redeem_code-unknown env req w h =
    let same : SameStores w (authenticate_client env req w).1 =
      authenticate_client-same env req w in
    elim (Result-cases (redeem_code env req w).0) [
      | inl (resp, q) ↦ absurd (ground (arith, same))
      | inr (x, q) ↦ ((x, q), ground (arith, same), ground (arith, same))
    ]

-- An authorization code that was redeemed is refused afterwards, whatever the second request says
-- of itself. The refused request stores no token and revokes none: the tokens of the first
-- redemption stay, where ADR-0009 has a replay revoke them.
pub redeem_code-replay :
    (env : Env) (req : GrantRequest) (w w' : World) (resp : GrantResponse) (req' : GrantRequest)
    → redeem_code env req w ≡ (ok resp, w')
    → req'.code ≡ req.code
    → ((e : Error) × ((redeem_code env req' w').0 ≡ err e))
      × ((redeem_code env req' w').1.tokens ≡ w'.tokens)
      × ((redeem_code env req' w').1.refresh_tokens ≡ w'.refresh_tokens)
redeem_code-replay env req w w' resp req' h same =
    let first : Redeemed env req w w' resp = redeem_code_sound env req w w' resp h in
    redeem_code-unknown env req' w' (ap (λ k. lookup k w'.codes) same ∙ first.spent)

issue_tokens-codes :
    (env : Env) (client : Client) (code : AuthorizationCode) (jkt : String) (w : World)
    → (issue_tokens env client code jkt w).1.codes ≡ w.codes
unfolding issue_tokens now generate_id issue_access issue_refresh ◌>>=◌ maybe_id_token
issue_tokens-codes env client code jkt w = ground arith

consume_code-gone :
    (t : ℕ) (raw : String) (d : Dict AuthorizationCode) → lookup raw (consume_code t raw d).1 ≡ none
unfolding consume_code
consume_code-gone t raw d = ground (arith, lookup-erase_self raw d)

-- Once a well-formed request of an authenticated client that has the grant reaches the code, the
-- code is gone, also where the request is then refused: a wrong verifier cannot be tried twice.
pub redeem_code-burns :
    (env : Env) (req : GrantRequest) (w : World) (client : Client)
    → validate_fields req ≡ ok tt
    → (authenticate_client env req w).0 ≡ ok client
    → has_grant_type client grant_authorization_code ≡ true
    → lookup req.code (redeem_code env req w).1.codes ≡ none
unfolding redeem_code now ◌>>=◌
redeem_code-burns env req w client valid known granted =
    let w₁ : World = (authenticate_client env req w).1 in
    let gone = consume_code-gone (env.clock w₁.readings) req.code w₁.codes in
    elim (Result-cases (consume_code (env.clock w₁.readings) req.code w₁.codes).0) [
      | inr (_, r) ↦ ground (arith, gone)
      | inl (code, r) ↦
          ground (
            arith,
            gone,
            issue_tokens-codes env client code req.dpop_jkt (consumed env req.code w₁),
          )
    ]
