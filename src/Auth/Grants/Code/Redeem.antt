-- ===== src/Auth/Grants/Code/Redeem.antt =====
-- What issueTokens of grant_strategy.go stores for a consumed authorization code.
use identity_platform_go.Base.{
  >>=-elim, pure-ok, ap, sym, ◌∙◌, ◌/◌, ℕ, ◌≡◌, some, String, ok, arith,
}
use identity_platform_go.Base.Dict.{lookup}
use identity_platform_go.Base.Words.{join}
use identity_platform_go.Auth.Domain.{Client, AuthorizationCode, actor_user}
use identity_platform_go.Auth.Requests.{GrantResponse, no_response, dpop_token_type}
use identity_platform_go.Auth.World.{Env, World, now, second}
use identity_platform_go.Auth.Tokens.{
  generate_id, issue_access, issue_refresh, resolve_active_account,
}
use identity_platform_go.Auth.Tokens.Issue.{issue_access-ok, issue_refresh-ok, refresh_record}
use identity_platform_go.Auth.Tokens.Steps.{generate_id-world, now-ok}
use identity_platform_go.Auth.Grants.IdToken.{maybe_id_token}
use identity_platform_go.Auth.Grants.Code.{issue_tokens, code_token}

-- What a redemption stores for the user who approved the code's request.
pub record Issued (env : Env) (client : Client) (code : AuthorizationCode) (jkt : String)
    (w w' : World) (resp : GrantResponse) : Type 0 where
  pub at : ℕ
  pub timed : at ≡ env.clock w.readings
  pub token_id : String
  pub refresh_id : String
  pub access :
      lookup resp.access_token w'.tokens
      ≡ some (record (code_token env client code jkt at token_id) { raw = resp.access_token })
  pub refresh :
      lookup resp.refresh_token w'.refresh_tokens
      ≡ some
          (refresh_record env client.id code.subject code.scopes at resp.refresh_token refresh_id)
  pub kind : resp.token_type ≡ dpop_token_type jkt
  pub codes : w'.codes ≡ w.codes

maybe_id_token-world :
    (env : Env) (client_id : String) (code : AuthorizationCode) (raw : String) (at : ℕ)
    (account : String) (w : World)
    → (maybe_id_token env client_id code raw at account w).1 ≡ w
unfolding maybe_id_token
maybe_id_token-world env client_id code raw at account w = ground arith

-- The response of a redemption whose parts were issued in these states.
abbrev code_response : Env → AuthorizationCode → String → String → String → String → GrantResponse
code_response env code jkt raw refresh id_token = record no_response {
  access_token = raw;
  id_token = id_token;
  token_type = dpop_token_type jkt;
  expires_in = env.ttl / second;
  refresh_token = refresh;
  scope = join code.scopes;
  actor_type = actor_user;
  subject = code.subject;
}

module _ (env : Env) (client : Client) (code : AuthorizationCode) (jkt : String)
    (w w₁ w₂ w₃ w₄ w' : World) (at : ℕ) (id raw refresh id_token : String)
    (q₁ : now env w ≡ (ok at, w₁)) (q₂ : generate_id env w₁ ≡ (ok id, w₂))
    (q₃ : issue_access env (code_token env client code jkt at id) w₂ ≡ (ok raw, w₃))
    (q₄ : issue_refresh env client.id code.subject code.scopes at w₃ ≡ (ok refresh, w₄))
    (q₅ : w₄ ≡ w') (resp : GrantResponse)
    (q₆ : code_response env code jkt raw refresh id_token ≡ resp) where
  issued : Issued env client code jkt w w' resp
  issued =
      let (timed, p₁) = now-ok env w w₁ at q₁ in
      let p₂ = generate_id-world env w₁ in
      let (_, p₃, stored) =
        issue_access-ok env (code_token env client code jkt at id) w₂ w₃ raw q₃ in
      let (refresh_id, _, p₄, stored') =
        issue_refresh-ok env client.id code.subject code.scopes at w₃ w₄ refresh q₄ in
      record {
        at = at;
        timed = timed;
        token_id = id;
        refresh_id = refresh_id;
        access = ground arith;
        refresh = ground arith;
        kind = ground arith;
        codes = ground arith;
      }

pub issue_tokens-Issued :
    (env : Env) (client : Client) (code : AuthorizationCode) (jkt : String) (w w' : World)
    (resp : GrantResponse)
    → issue_tokens env client code jkt w ≡ (ok resp, w')
    → Issued env client code jkt w w' resp
unfolding issue_tokens
issue_tokens-Issued env client code jkt w w' resp e = >>=-elim _ _ e λ at w₁ q₁ e₁.
    >>=-elim _ _ e₁ λ id w₂ q₂ e₂. >>=-elim _ _ e₂ λ raw w₃ q₃ e₃.
      >>=-elim _ _ e₃ λ refresh w₄ q₄ e₄. >>=-elim _ _ e₄ λ id_token w₅ q₅ e₅.
        let same : w₅ ≡ w₄ =
          sym (ap (λ p. p.1) q₅)
          ∙ maybe_id_token-world env client.id code raw at (resolve_active_account env code.subject)
              w₄ in
        let (a, b) = pure-ok _ resp w₅ w' e₅ in
        issued env client code jkt w w₁ w₂ w₃ w₄ w' at id raw refresh id_token q₁ q₂ q₃ q₄
          (sym same ∙ b) resp a
