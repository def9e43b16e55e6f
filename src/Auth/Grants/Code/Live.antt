-- ===== src/Auth/Grants/Code/Live.antt =====
-- A redemption that meets every condition succeeds.
use identity_platform_go.Base.{
  ◌>>=◌, ◌≡◌, refl, arith, ap, ◌∙◌, ℕ, suc, true, false, inl, inr, some, Option, String, List, ok,
  >>=_ok, Option-cases, Bool-cases, eq_iff, contains,
}
use identity_platform_go.Base.Dict.{lookup}
use identity_platform_go.Auth.Domain.{
  Client, AuthorizationCode, Token, has_grant_type, grant_authorization_code, code_expired,
  has_valid_pkce_method,
}
use identity_platform_go.Auth.Requests.{GrantRequest}
use identity_platform_go.Auth.Store.{consume_code}
use identity_platform_go.Auth.Store.Instances.{consume_code-live}
use identity_platform_go.Auth.World.{Env, World, M, IdTokenIssuance, now, draw}
use identity_platform_go.Auth.Clients.{authenticate_client}
use identity_platform_go.Auth.Tokens.{generate, generate_id, issue_access, issue_refresh}
use identity_platform_go.Auth.Grants.IdToken.{maybe_id_token, populate_claims, issuance}
use identity_platform_go.Auth.Grants.Code.{
  validate_fields, consume, verify_match, issue_tokens, redeem_code,
}
use identity_platform_go.Auth.Grants.Code.Checks.{Matches, consumed}

abbrev pub Succeeds : {A : Type 0} → M A → World → Type 0
Succeeds {A} m w = (a : A) × (w' : World) × (m w ≡ (ok a, w'))

Succeeds-bind :
    {A B : Type 0} (m : M A) (f : A → M B) (w : World)
    → Succeeds m w
    → ((a : A) (w' : World) → m w ≡ (ok a, w') → Succeeds (f a) w')
    → Succeeds (m >>= f) w
Succeeds-bind m f w (a, w', q) k = let (b, w'', p) = k a w' q in (b, w'', >>=_ok m f q ∙ p)

-- The random source, the signer of access tokens and that of ID tokens, where one is wired, work.
pub record Works (env : Env) : Type 0 where
  pub draws : (n : ℕ) → (s : String) × (env.random n ≡ some s)
  pub signs : (t : Token) → (raw : String) × (generate env t ≡ some raw)
  pub id_tokens :
      (sign : IdTokenIssuance → Option String)
      → env.sign_id_token ≡ some sign
      → (i : IdTokenIssuance) → (raw : String) × (sign i ≡ some raw)

verify_match_complete :
    (env : Env) (code : AuthorizationCode) (req : GrantRequest) (at : ℕ)
    → Matches env code req at
    → verify_match env code req at ≡ ok tt
unfolding verify_match has_valid_pkce_method
verify_match_complete env code req at m = ground (
  arith,
  m.client_id,
  m.redirect_uri,
  m.live,
  m.method,
  m.verifier,
  eq_iff code.client_id req.client_id,
  eq_iff code.redirect_uri req.redirect_uri,
  eq_iff code.code_challenge_method "S256",
  eq_iff (env.s256 req.code_verifier) code.code_challenge,
)

module _ (env : Env) (works : Works env) where
  now-Succeeds : (w : World) → Succeeds (now env) w
  unfolding now
  now-Succeeds w = (env.clock w.readings, record w { readings = suc w.readings }, refl)

  generate_id-Succeeds : (w : World) → Succeeds (generate_id env) w
  unfolding generate_id draw
  generate_id-Succeeds w =
      let (s, q) = works.draws w.draws in (s, record w { draws = suc w.draws }, rw q refl)

  issue_access-Succeeds : (t : Token) (w : World) → Succeeds (issue_access env t) w
  unfolding issue_access
  issue_access-Succeeds t w =
      let (raw, q) = works.signs t in
      Succeeds-bind _ _ w (raw, w, rw q refl)
        λ r w' p. Succeeds-bind _ _ w' (tt, _, refl) λ _ w'' _. (r, w'', refl)

  issue_refresh-Succeeds :
      (client_id subject : String) (scopes : List String) (at : ℕ) (w : World)
      → Succeeds (issue_refresh env client_id subject scopes at) w
  unfolding issue_refresh
  issue_refresh-Succeeds client_id subject scopes at w =
      Succeeds-bind _ _ w (generate_id-Succeeds w) λ raw w₁ _.
        Succeeds-bind _ _ w₁ (generate_id-Succeeds w₁)
          λ id w₂ _. Succeeds-bind _ _ w₂ (tt, _, refl) λ _ w₃ _. (raw, w₃, refl)

  id_token-Succeeds :
      (client_id : String) (code : AuthorizationCode) (raw : String) (at : ℕ) (account : String)
      (w : World)
      → Succeeds (maybe_id_token env client_id code raw at account) w
  unfolding maybe_id_token
  id_token-Succeeds client_id code raw at account w = elim (Option-cases env.sign_id_token) [
    | inl q ↦ ("", w, ground arith)
    | inr (sign, q) ↦ elim (Bool-cases (contains code.scopes "openid")) [
      | inl with_id ↦
          let (t, p) =
            works.id_tokens sign q
              (populate_claims env code (issuance env client_id code raw at account)) in
          (t, w, ground arith)
      | inr without ↦ ("", w, ground arith)
    ]
  ]

  issue_tokens-Succeeds :
      (client : Client) (code : AuthorizationCode) (jkt : String) (w : World)
      → Succeeds (issue_tokens env client code jkt) w
  unfolding issue_tokens
  issue_tokens-Succeeds client code jkt w = Succeeds-bind _ _ w (now-Succeeds w) λ at w₁ _.
      Succeeds-bind _ _ w₁ (generate_id-Succeeds w₁) λ id w₂ _.
        Succeeds-bind _ _ w₂ (issue_access-Succeeds _ w₂) λ raw w₃ _.
          Succeeds-bind _ _ w₃ (issue_refresh-Succeeds _ _ _ _ w₃) λ refresh w₄ _.
            Succeeds-bind _ _ w₄ (id_token-Succeeds _ _ _ _ _ w₄) λ id_token w₅ _. (_, w₅, refl)

  consume-Succeeds :
      (raw : String) (w : World) (code : AuthorizationCode)
      → lookup raw w.codes ≡ some code
      → code_expired code (env.clock w.readings) ≡ false
      → consume env raw w ≡ (
        ok code,
        record w {
          readings = suc w.readings;
          codes = (consume_code (env.clock w.readings) raw w.codes).1;
        },
      )
  unfolding consume now ◌>>=◌
  consume-Succeeds raw w code held live =
      ground (arith, consume_code-live (env.clock w.readings) raw w.codes code held live)

  -- A redemption succeeds where the request has its fields, its client authenticates and has the
  -- grant, the code is stored and has not expired, and the request matches it in every respect,
  -- provided that the random source and the signers work.
  pub redeem_code_live :
      (req : GrantRequest) (w w₁ : World) (client : Client) (code : AuthorizationCode)
      → validate_fields req ≡ ok tt
      → authenticate_client env req w ≡ (ok client, w₁)
      → has_grant_type client grant_authorization_code ≡ true
      → lookup req.code w₁.codes ≡ some code
      → code_expired code (env.clock w₁.readings) ≡ false
      → Matches env code req (env.clock (suc w₁.readings))
      → Succeeds (redeem_code env req) w
  unfolding redeem_code now
  redeem_code_live req w w₁ client code fields known granted held live matches =
      let m = verify_match_complete env code req (env.clock (suc w₁.readings)) matches in
      let (resp, w', q) =
        issue_tokens-Succeeds client code req.dpop_jkt (consumed env req.code w₁) in
      (
        resp,
        w',
        >>=_ok _ _ (ap (λ r. (r, w)) fields)
            ∙ >>=_ok _ _ known
            ∙ >>=_ok _ _ (rw granted refl)
            ∙ >>=_ok _ _ (consume-Succeeds req.code w₁ code held live)
            ∙ >>=_ok _ _ refl
            ∙ >>=_ok _ _ (ap (λ r. (r, consumed env req.code w₁)) m)
            ∙ q,
      )
