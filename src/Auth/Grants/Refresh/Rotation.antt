-- ===== src/Auth/Grants/Refresh/Rotation.antt =====
-- RefreshTokenStrategy: the old and the new tokens.
use identity_platform_go.Base.{
  ◌>>=◌, >>=-elim, pure-ok, ℕ, ◌≡◌, refl, false, ◌⊎◌, inl, inr, none, some, String, ok, err, arith,
  Result-cases, ◌∙◌, ap, sym, subst, suc, fail_if-ok, ltb, eq_iff, unauthorized,
}
use identity_platform_go.Base.Dict.{lookup, lookup-erase_self, lookup-insert}
use identity_platform_go.Auth.Domain.{Client, RefreshToken, Error, app}
use identity_platform_go.Auth.Requests.{GrantRequest, GrantResponse}
use identity_platform_go.Auth.World.{Env, World, now}
use identity_platform_go.Auth.Store.{save_refresh}
use identity_platform_go.Auth.Clients.{authenticate_client}
use identity_platform_go.Auth.Clients.Proofs.{
  SameStores, Authentic, behind, authenticate_client-same, authenticate_client_sound,
}
use identity_platform_go.Auth.Tokens.Issue.{issue_access-ok, issue_refresh-ok, refresh_record}
use identity_platform_go.Auth.Tokens.Steps.{now-ok}
use identity_platform_go.Auth.Grants.Refresh.{
  validate_refresh, refresh, check_expiry, stored_refresh, rotate_refresh, refreshed_token,
  refresh_response,
}

-- What the checks before the rotation have shown. The expiry is compared with the first reading of
-- the clock behind the authentication.
pub record Presented (env : Env) (req : GrantRequest) (w w' : World) (rt : RefreshToken)
    (c : Client) : Type 0 where
  pub registered : lookup req.client_id w.clients ≡ some c
  pub authentic : Authentic env c w (behind env req w) req
  pub saved : lookup req.refresh_token w.refresh_tokens ≡ some rt
  pub own : rt.client_id ≡ req.client_id
  pub live : ltb rt.expires_at (env.clock (behind env req w).readings) ≡ false
  pub passed : w'.readings ≡ suc (behind env req w).readings
  pub same : w'.refresh_tokens ≡ w.refresh_tokens

stored_refresh-ok :
    (raw : String) (w w' : World) (rt : RefreshToken)
    → stored_refresh raw w ≡ (ok rt, w')
    → (lookup raw w.refresh_tokens ≡ some rt) × (w' ≡ w)
unfolding stored_refresh
stored_refresh-ok raw w w' rt e = (ground arith, ground arith)

check_expiry-ok :
    (env : Env) (raw : String) (rt : RefreshToken) (w w' : World)
    → check_expiry env raw rt w ≡ (ok tt, w')
    → (ltb rt.expires_at (env.clock w.readings) ≡ false)
      × (w'.readings ≡ suc w.readings)
      × (w'.refresh_tokens ≡ w.refresh_tokens)
unfolding check_expiry now
check_expiry-ok env raw rt w w' e = (ground arith, ground arith, ground arith)

pub validate_refresh-ok :
    (env : Env) (req : GrantRequest) (w w' : World) (rt : RefreshToken) (c : Client)
    → validate_refresh env req w ≡ (ok (rt, c), w')
    → Presented env req w w' rt c
unfolding validate_refresh
validate_refresh-ok env req w w' rt c e = >>=-elim _ _ e λ client w₁ q₁ e₁.
    >>=-elim _ _ e₁ λ existing w₂ q₂ e₂. >>=-elim _ _ e₂ λ _ w₃ q₃ e₃. >>=-elim _ _ e₃ λ _ w₄ q₄ e₄.
      let (a, b) = pure-ok (existing, client) (rt, c) w₄ w' e₄ in
      let (found, same₂) = stored_refresh-ok req.refresh_token w₁ w₂ existing q₂ in
      let (live, passed, same₄) = check_expiry-ok env req.refresh_token existing w₃ w₄ q₄ in
      let same : SameStores w (authenticate_client env req w).1 =
        authenticate_client-same env req w in
      let (known, authentic) = authenticate_client_sound env req w w₁ client q₁ in
      let there : w₁ ≡ behind env req w = sym (ap (λ p. p.1) q₁) in
      let asked : client ≡ c = ap (λ p. p.1) a in
      let unmoved : w₃ ≡ behind env req w = (fail_if-ok _ _ w₂ w₃ q₃).1 ∙ same₂ ∙ there in
      let first : existing ≡ rt = ap (λ p. p.0) a in
      record {
        registered = ground arith;
        authentic =
            subst (λ x. Authentic env x w (behind env req w) req) asked
              (subst (λ x. Authentic env client w x req) there authentic);
        saved = ground (arith, same);
        own = ground (arith, eq_iff existing.client_id req.client_id);
        live =
            ap (λ x. ltb x.expires_at (env.clock (behind env req w).readings)) (sym first)
            ∙ ap (λ x. ltb existing.expires_at (env.clock x.readings)) (sym unmoved)
            ∙ live;
        passed = ap (λ x. x.readings) (sym b) ∙ passed ∙ ap (λ x. suc x.readings) unmoved;
        same = ground (arith, same);
      }

rotate_refresh-ok :
    (env : Env) (raw new : String) (rt : RefreshToken) (at : ℕ) (w w' : World)
    → rotate_refresh env raw rt at w ≡ (ok new, w')
    → (w'.tokens ≡ w.tokens)
      × ((id : String) × (lookup new w'.refresh_tokens
            ≡ some (refresh_record env rt.client_id rt.subject rt.scopes at new id)))
      × ((lookup raw w'.refresh_tokens ≡ none) ⊎ (new ≡ raw))
unfolding rotate_refresh save_refresh
rotate_refresh-ok env raw new rt at w w' e = >>=-elim _ _ e λ _ w₁ q₁ e₁.
    let (id, _, p, stored) =
      issue_refresh-ok env rt.client_id rt.subject rt.scopes at w₁ w' new e₁ in
    (
      ground arith,
      (id, stored),
      ground (
        arith,
        p,
        lookup-insert new raw (refresh_record env rt.client_id rt.subject rt.scopes at new id)
            w₁.refresh_tokens,
        lookup-erase_self raw w.refresh_tokens,
        eq_iff new raw,
      ),
    )

-- The time of the new tokens: the reading of the clock after that of the expiry check
abbrev pub refreshed_at : Env → GrantRequest → World → ℕ
refreshed_at env req w = env.clock (suc (behind env req w).readings)

-- What holds of a refresh that answers `resp`.
pub record Rotated (env : Env) (req : GrantRequest) (w w' : World) (resp : GrantResponse)
    : Type 0 where
  pub client : Client
  pub old : RefreshToken
  pub token_id : String
  pub refresh_id : String
  pub registered : lookup req.client_id w.clients ≡ some client
  pub authentic : Authentic env client w (behind env req w) req
  pub saved : lookup req.refresh_token w.refresh_tokens ≡ some old
  pub own : old.client_id ≡ req.client_id
  pub live : ltb old.expires_at (env.clock (behind env req w).readings) ≡ false
  pub access :
      lookup resp.access_token w'.tokens
      ≡ some
          (record (refreshed_token env old client req.dpop_jkt (refreshed_at env req w) token_id) {
            raw = resp.access_token;
          })
  pub rotated :
      lookup resp.refresh_token w'.refresh_tokens
      ≡ some (
          refresh_record env old.client_id old.subject old.scopes
            (refreshed_at env req w)
            resp.refresh_token
            refresh_id)
  pub spent :
      (lookup req.refresh_token w'.refresh_tokens ≡ none) ⊎ (resp.refresh_token ≡ req.refresh_token)

-- A refresh answers only if the client is registered and has authenticated, and the presented
-- refresh token is stored, was issued to that client and is not expired at the clock's reading
-- behind the authentication. The new access token and the new refresh token are stored with the old
-- one's client, subject and scopes and the next reading as their time, and the old one is gone,
-- unless the random source drew its value again.
pub refresh-Rotated :
    (env : Env) (req : GrantRequest) (w w' : World) (resp : GrantResponse)
    → refresh env req w ≡ (ok resp, w')
    → Rotated env req w w' resp
unfolding refresh
refresh-Rotated env req w w' resp e = >>=-elim _ _ e λ (old, client) w₁ q₁ e₁.
    >>=-elim _ _ e₁ λ at w₂ q₂ e₂. >>=-elim _ _ e₂ λ id w₃ q₃ e₃. >>=-elim _ _ e₃ λ raw w₄ q₄ e₄.
      >>=-elim _ _ e₄ λ new w₅ q₅ e₅.
        let presented : Presented env req w w₁ old client =
          validate_refresh-ok env req w w₁ old client q₁ in
        let (_, _, stored) =
          issue_access-ok env (refreshed_token env old client req.dpop_jkt at id) w₃ w₄ raw q₄ in
        let (kept, (refresh_id, rotated), spent) =
          rotate_refresh-ok env req.refresh_token new old at w₄ w₅ q₅ in
        let (a, b) = pure-ok (refresh_response env old client req.dpop_jkt raw new) resp w₅ w' e₅ in
        let timed : at ≡ refreshed_at env req w =
          (now-ok env w₁ w₂ at q₂).0 ∙ ap env.clock presented.passed in
        record {
          client = client;
          old = old;
          token_id = id;
          refresh_id = refresh_id;
          registered = presented.registered;
          authentic = presented.authentic;
          saved = presented.saved;
          own = presented.own;
          live = presented.live;
          access = ground arith;
          rotated = ground arith;
          spent = ground (arith, spent);
        }

-- A refresh token that is not stored is refused as unauthorized, or the client is not
-- authenticated; no token is stored.
pub refresh-unknown :
    (env : Env) (req : GrantRequest) (w : World)
    → lookup req.refresh_token w.refresh_tokens ≡ none
    → ((e : Error) × ((refresh env req w).0 ≡ err e)
        × ((e ≡ app unauthorized) ⊎ ((authenticate_client env req w).0 ≡ err e)))
      × ((refresh env req w).1.tokens ≡ w.tokens)
      × ((refresh env req w).1.refresh_tokens ≡ w.refresh_tokens)
unfolding refresh validate_refresh stored_refresh ◌>>=◌
refresh-unknown env req w h =
    let same : SameStores w (authenticate_client env req w).1 =
      authenticate_client-same env req w in
    elim (Result-cases (authenticate_client env req w).0) [
      | inl (c, q) ↦ (
        (app unauthorized, ground (arith, same), inl refl),
        ground (arith, same),
        ground (arith, same),
      )
      | inr (x, q) ↦ ((x, ground (arith, same), inr q), ground (arith, same), ground (arith, same))
    ]

-- A refresh token that a refresh has rotated away is refused the next time, unless the random source
-- drew its value again.
pub refresh-replay :
    (env : Env) (req : GrantRequest) (w w' : World) (resp : GrantResponse) (req' : GrantRequest)
    → refresh env req w ≡ (ok resp, w')
    → req'.refresh_token ≡ req.refresh_token
    → ((e : Error) × ((refresh env req' w').0 ≡ err e)) ⊎ (resp.refresh_token ≡ req.refresh_token)
refresh-replay env req w w' resp req' h same =
    let rotated : Rotated env req w w' resp = refresh-Rotated env req w w' resp h in
    elim rotated.spent [
      | inr drawn ↦ inr drawn
      | inl gone ↦
          let ((x, q, _), _, _) =
            refresh-unknown env req' w' (ap (λ k. lookup k w'.refresh_tokens) same ∙ gone) in
          inl (x, q)
    ]
