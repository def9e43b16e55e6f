-- ===== src/Auth/Grants/ClientCredentials/Proofs.antt =====
-- ClientCredentialsStrategy: its scopes and its tokens.
use identity_platform_go.Base.{
  >>=-elim, pure-ok, ◌≡◌, refl, true, ◌⊎◌, inl, inr, some, String, ok, err, arith, Bool-cases, sym,
  ap, ◌∙◌, subst, fail_if-ok, Subset, Subset_refl, List, [], ◌∷◌, forbidden,
}
use identity_platform_go.Base.Dict.{lookup}
use identity_platform_go.Auth.Domain.{Client, has_grant_type, grant_client_credentials, app}
use identity_platform_go.Auth.Requests.{GrantRequest, GrantResponse}
use identity_platform_go.Auth.World.{Env, World}
use identity_platform_go.Auth.Clients.Proofs.{Authentic, behind, authenticate_client_sound}
use identity_platform_go.Auth.Tokens.Steps.{now-ok}
use identity_platform_go.Auth.Tokens.Issue.{issue_access-ok, issue_refresh-ok, refresh_record}
use identity_platform_go.Auth.Grants.ClientCredentials.{
  validate_client, all_allowed, or_default, resolve_scopes, client_credentials, client_token,
  client_response,
}

pub all_allowed-Subset :
    (allowed xs : List String) → all_allowed allowed xs ≡ true → Subset xs allowed
unfolding all_allowed
all_allowed-Subset allowed [] h = tt
all_allowed-Subset allowed (x ∷ xs) h = (ground arith, all_allowed-Subset allowed xs (ground arith))

pub Subset-all_allowed :
    (allowed xs : List String) → Subset xs allowed → all_allowed allowed xs ≡ true
unfolding all_allowed
Subset-all_allowed allowed [] h = refl
Subset-all_allowed allowed (x ∷ xs) h = rw (h.0) (Subset-all_allowed allowed xs h.1)

-- The scopes that are granted are those asked for, or the client's own where none are, and each is
-- registered for the client. A request is refused only where one is not.
resolve_scopes_lem :
    (client : Client) (requested : List String)
    → ((resolve_scopes client requested ≡ ok (or_default requested client.scopes))
        × Subset (or_default requested client.scopes) client.scopes)
      ⊎ ((resolve_scopes client requested ≡ err (app forbidden))
          × (Subset requested client.scopes → ⊥))
unfolding resolve_scopes or_default
resolve_scopes_lem client [] =
    let all = Subset-all_allowed client.scopes client.scopes (Subset_refl client.scopes) in
    inl (ground (arith, all), Subset_refl client.scopes)
resolve_scopes_lem client (s ∷ ss) = elim (Bool-cases (all_allowed client.scopes (s ∷ ss))) [
  | inl q ↦ inl (ground arith, all_allowed-Subset client.scopes (s ∷ ss) q)
  | inr q ↦
      inr (ground arith, λ h. let p = Subset-all_allowed client.scopes (s ∷ ss) h in ground arith)
]

resolve_scopes-ok :
    (client : Client) (requested scopes : List String)
    → resolve_scopes client requested ≡ ok scopes
    → (scopes ≡ or_default requested client.scopes) × Subset scopes client.scopes
resolve_scopes-ok client requested scopes e = elim (resolve_scopes_lem client requested) [
  | inr (q, _) ↦ absurd (ground arith)
  | inl (q, h) ↦
      let p : or_default requested client.scopes ≡ scopes = ground arith in (sym p, rw p at h)
]

-- What holds of a request for a client's own token that answers `resp`.
pub record Granted (env : Env) (req : GrantRequest) (w w' : World) (resp : GrantResponse)
    : Type 0 where
  pub client : Client
  pub scopes : List String
  pub token_id : String
  pub refresh_id : String
  pub registered : lookup req.client_id w.clients ≡ some client
  pub authentic : Authentic env client w (behind env req w) req
  pub granted : has_grant_type client grant_client_credentials ≡ true
  pub asked : scopes ≡ or_default req.scopes client.scopes
  pub allowed : Subset scopes client.scopes
  pub access :
      lookup resp.access_token w'.tokens
      ≡ some
          (record (client_token env req client scopes
            (env.clock (behind env req w).readings)
            token_id) { raw = resp.access_token })
  pub refresh :
      lookup resp.refresh_token w'.refresh_tokens
      ≡ some (
          refresh_record env req.client_id req.client_id scopes
            (env.clock (behind env req w).readings)
            resp.refresh_token
            refresh_id)

validate_client-ok :
    (env : Env) (req : GrantRequest) (w w' : World) (c : Client)
    → validate_client env req w ≡ (ok c, w')
    → (lookup req.client_id w.clients ≡ some c)
      × Authentic env c w (behind env req w) req
      × (has_grant_type c grant_client_credentials ≡ true)
      × (w' ≡ behind env req w)
unfolding validate_client
validate_client-ok env req w w' c e = >>=-elim _ _ e λ client w₁ q₁ e₁.
    >>=-elim _ _ e₁ λ _ w₂ q₂ e₂.
      let (known, authentic) = authenticate_client_sound env req w w₁ client q₁ in
      let there : w₁ ≡ behind env req w = sym (ap (λ p. p.1) q₁) in
      let (_, still) = fail_if-ok _ _ w₁ w₂ q₂ in
      let (same, last) = pure-ok client c w₂ w' e₂ in
      (
        ground arith,
        subst (λ x. Authentic env x w (behind env req w) req) same
            (subst (λ x. Authentic env client w x req) there authentic),
        ground arith,
        sym last ∙ still ∙ there,
      )

-- A token is answered only to a registered client that has authenticated, by its secret or by an
-- assertion, and has the client_credentials grant. The stored token is for the client itself, of the
-- time of the clock's reading behind the authentication, with scopes that are all registered for it.
pub client_credentials-Granted :
    (env : Env) (req : GrantRequest) (w w' : World) (resp : GrantResponse)
    → client_credentials env req w ≡ (ok resp, w')
    → Granted env req w w' resp
unfolding client_credentials
client_credentials-Granted env req w w' resp e = >>=-elim _ _ e λ client w₁ q₁ e₁.
    >>=-elim _ _ e₁ λ scopes w₂ q₂ e₂. >>=-elim _ _ e₂ λ at w₃ q₃ e₃. >>=-elim _ _ e₃ λ id w₄ q₄ e₄.
      >>=-elim _ _ e₄ λ raw w₅ q₅ e₅. >>=-elim _ _ e₅ λ new w₆ q₆ e₆.
        let (known, authentic, has, there) = validate_client-ok env req w w₁ client q₁ in
        let lifted : w₂ ≡ w₁ = sym (ap (λ p. p.1) q₂) in
        let timed : at ≡ env.clock (behind env req w).readings =
          (now-ok env w₂ w₃ at q₃).0 ∙ ap (λ x. env.clock x.readings) (lifted ∙ there) in
        let (asked, allowed) = resolve_scopes-ok client req.scopes scopes (ap (λ p. p.0) q₂) in
        let (_, _, stored) =
          issue_access-ok env (client_token env req client scopes at id) w₄ w₅ raw q₅ in
        let (refresh_id, _, p₆, stored') =
          issue_refresh-ok env req.client_id req.client_id scopes at w₅ w₆ new q₆ in
        let (r, b) = pure-ok (client_response env req client scopes raw new) resp w₆ w' e₆ in
        record {
          client = client;
          scopes = scopes;
          token_id = id;
          refresh_id = refresh_id;
          registered = known;
          authentic = authentic;
          granted = has;
          asked = asked;
          allowed = allowed;
          access = ground arith;
          refresh = ground arith;
        }
