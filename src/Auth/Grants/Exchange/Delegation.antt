-- ===== src/Auth/Grants/Exchange/Delegation.antt =====
-- TokenExchangeStrategy: the new token against the subject token.
use identity_platform_go.Base.{
  fail_if-ok, ◌>>=◌, >>=-elim, pure-ok, ℕ, ◌+◌, ◌≤◌, ◌<◌, ◌≡◌, refl, subst, Bool, true, false, ◌⊎◌,
  inl, inr, Option, none, some, String, ok, arith, Bool-cases, sym, ◌∙◌, ap, Subset, Subset_refl,
  List, [], ◌∷◌, Result-cases, ltb, eq_iff, not,
}
use identity_platform_go.Base.Dict.{lookup}
use identity_platform_go.Auth.Domain.{
  Client, Token, Actor, depth, has_grant_type, grant_token_exchange, is_public, AuthorizationDetail,
}
use identity_platform_go.Auth.Requests.{GrantRequest, GrantResponse}
use identity_platform_go.Auth.World.{Env, World, second}
use identity_platform_go.Auth.Clients.{authenticate}
use identity_platform_go.Auth.Tokens.{validate}
use identity_platform_go.Auth.Tokens.Issue.{issue_access-ok}
use identity_platform_go.Auth.Grants.ClientCredentials.{all_allowed}
use identity_platform_go.Auth.Grants.ClientCredentials.Proofs.{all_allowed-Subset}
use identity_platform_go.Auth.Grants.Exchange.{
  authenticate_caller, may_exchange, validate_presented, exchange_scopes, act_chain, kinds,
  kinds_present, narrow_details, resolve_ttl, exchanged_token, exchange_response, exchange,
}

exchange_scopes-Subset :
    (requested available scopes : List String)
    → exchange_scopes requested available ≡ ok scopes
    → Subset scopes available
unfolding exchange_scopes
exchange_scopes-Subset [] available scopes e =
    let p : available ≡ scopes = ground arith in
    subst (λ xs. Subset xs available) p (Subset_refl available)
exchange_scopes-Subset (s ∷ ss) available scopes e =
    elim (Bool-cases (all_allowed available (s ∷ ss))) [
      | inl q ↦
          let p : (s ∷ ss) ≡ scopes = ground arith in
          subst (λ xs. Subset xs available) p (all_allowed-Subset available (s ∷ ss) q)
      | inr q ↦ absurd (ground arith)
    ]

kinds_present-Subset :
    (ds : List AuthorizationDetail) (ks : List String)
    → kinds_present ds ks ≡ true
    → Subset (kinds ds) ks
unfolding kinds_present
kinds_present-Subset [] ks h = tt
kinds_present-Subset (d ∷ ds) ks h = (ground arith, kinds_present-Subset ds ks (ground arith))

-- Details are passed on only of types that the subject token has.
pub narrow_details-Subset :
    (subject requested details : List AuthorizationDetail)
    → narrow_details subject requested ≡ ok details
    → Subset (kinds details) (kinds subject)
unfolding narrow_details
narrow_details-Subset subject [] details e =
    let p : subject ≡ details = ground arith in
    subst (λ ds. Subset (kinds ds) (kinds subject)) p (Subset_refl (kinds subject))
narrow_details-Subset [] (d ∷ ds) details e = absurd (ground arith)
narrow_details-Subset (s ∷ ss) (d ∷ ds) details e =
    elim (Bool-cases (kinds_present (d ∷ ds) (kinds (s ∷ ss)))) [
      | inl q ↦
          let p : (d ∷ ds) ≡ details = ground arith in
          subst (λ xs. Subset (kinds xs) (kinds (s ∷ ss))) p
            (kinds_present-Subset (d ∷ ds) (kinds (s ∷ ss)) q)
      | inr q ↦ absurd (ground arith)
    ]

-- The lifetime of an exchanged token is at most the configured maximum, or one second where that is
-- less, and the token outlives its subject token only where that has less than a second left; it
-- then lives for exactly one second.
pub resolve_ttl_lem :
    (env : Env) (at : ℕ) (subject : Token)
    → ((resolve_ttl env at subject ≤ env.max_ttl) ⊎ (resolve_ttl env at subject ≡ second))
      × ((at + resolve_ttl env at subject ≤ subject.expires_at)
          ⊎ ((subject.expires_at < at + second) × (resolve_ttl env at subject ≡ second)))
unfolding resolve_ttl
resolve_ttl_lem env at subject = (ground arith, ground arith)

-- What holds of an exchange that answers `resp`.
pub record Delegated (env : Env) (req : GrantRequest) (w w' : World) (resp : GrantResponse)
    : Type 0 where
  pub caller : Client
  pub subject : Token
  pub actor : Actor
  pub token : Token
  pub seen : World
  pub registered : lookup req.client_id w.clients ≡ some caller
  pub secret : caller.secret ≡ req.client_secret
  pub granted : has_grant_type caller grant_token_exchange ≡ true
  pub valid : (validate env req.subject_token seen).0 ≡ ok subject
  pub own : (is_public caller ≡ false) ⊎ (subject.client_id ≡ caller.id)
  pub stored : lookup resp.access_token w'.tokens ≡ some token
  pub same_subject : token.subject ≡ subject.subject
  pub caller_token : token.client_id ≡ caller.id
  pub chain : token.act ≡ actor ∷ subject.act
  pub shallow : depth token.act ≤ env.max_depth
  pub scopes : Subset token.scopes subject.scopes
  pub details : Subset (kinds token.authorization_details) (kinds subject.authorization_details)

authenticate_caller-ok :
    (req : GrantRequest) (w w' : World) (c : Client)
    → authenticate_caller req w ≡ (ok c, w')
    → (lookup req.client_id w.clients ≡ some c)
      × (c.secret ≡ req.client_secret)
      × (has_grant_type c grant_token_exchange ≡ true)
unfolding authenticate_caller authenticate ◌>>=◌
authenticate_caller-ok req w w' c e = ground (arith, eq_iff c.secret req.client_secret)

validate_presented-ok :
    (env : Env) (raw : String) (w w' : World) (t : Token)
    → validate_presented env raw w ≡ (ok t, w')
    → (validate env raw w).0 ≡ ok t
unfolding validate_presented
validate_presented-ok env raw w w' t e = elim (Result-cases (validate env raw w).0) [
  | inl (s, q) ↦ ground arith
  | inr (x, q) ↦ absurd (ground arith)
]

act_chain-head :
    (caller : Client) (actor : Option Token) (subject : Token)
    → (a : Actor) × (act_chain caller actor subject ≡ a ∷ subject.act)
unfolding act_chain
act_chain-head caller none subject = (_, refl)
act_chain-head caller (some t) subject = (_, refl)

may_exchange-own :
    (c : Client) (t : Token)
    → may_exchange c t ≡ true
    → (is_public c ≡ false) ⊎ (t.client_id ≡ c.id)
unfolding may_exchange
may_exchange-own c t h = ground (arith, eq_iff t.client_id c.id)

not-false : (b : Bool) → not b ≡ false → b ≡ true
not-false b h = ground arith

not_less : (m n : ℕ) → ltb m n ≡ false → n ≤ m
not_less m n h = ground arith

-- An exchange answers only to a registered client with its secret and the grant, for a subject
-- token that validates; a public client's own. The new token is stored for the same subject and
-- the calling client, its chain is one hop on the subject token's and within the limit, and its
-- scopes and the types of its details are among the subject token's.
pub exchange-Delegated :
    (env : Env) (req : GrantRequest) (w w' : World) (resp : GrantResponse)
    → exchange env req w ≡ (ok resp, w')
    → Delegated env req w w' resp
unfolding exchange
exchange-Delegated env req w w' resp e = >>=-elim _ _ e λ _ w₁ q₁ e₁. >>=-elim _ _ e₁ λ _ w₂ q₂ e₂.
    >>=-elim _ _ e₂ λ caller w₃ q₃ e₃. >>=-elim _ _ e₃ λ subject w₄ q₄ e₄.
      >>=-elim _ _ e₄ λ _ w₅ q₅ e₅. >>=-elim _ _ e₅ λ actor w₆ q₆ e₆.
        >>=-elim _ _ e₆ λ scopes w₇ q₇ e₇. >>=-elim _ _ e₇ λ _ w₈ q₈ e₈.
          >>=-elim _ _ e₈ λ at w₉ q₉ e₉. >>=-elim _ _ e₉ λ details v₁ p₁ f₁.
            >>=-elim _ _ f₁ λ id v₂ p₂ f₂. >>=-elim _ _ f₂ λ raw v₃ p₃ f₃.
              let same : w₂ ≡ w = sym (ap (λ p. p.1) q₂) ∙ sym (ap (λ p. p.1) q₁) in
              let (known, secret, granted) = authenticate_caller-ok req w₂ w₃ caller q₃ in
              let (deep, _) =
                fail_if-ok (ltb env.max_depth (depth (act_chain caller actor subject))) _ w₇ w₈
                  q₈ in
              let (may, _) = fail_if-ok (not (may_exchange caller subject)) _ w₄ w₅ q₅ in
              let (hop, chain) = act_chain-head caller actor subject in
              let (_, _, stored) =
                issue_access-ok env
                  (exchanged_token env req caller actor subject scopes details at id) v₂ v₃ raw
                  p₃ in
              let (r, b) =
                pure-ok (exchange_response env caller actor subject scopes at raw) resp v₃ w' f₃ in
              record {
                caller = caller;
                subject = subject;
                actor = hop;
                token = record (exchanged_token env req caller actor subject scopes details at id) {
                  raw = resp.access_token;
                };
                seen = w₃;
                registered = rw same at known;
                secret = secret;
                granted = granted;
                valid = validate_presented-ok env req.subject_token w₃ w₄ subject q₄;
                own = may_exchange-own caller subject (not-false _ may);
                stored = rw b at (rw (ap (λ x. x.access_token) r) at stored);
                same_subject = refl;
                caller_token = refl;
                chain = chain;
                shallow = not_less env.max_depth (depth (act_chain caller actor subject)) deep;
                scopes = exchange_scopes-Subset req.scopes subject.scopes scopes (ap (λ p. p.0) q₇);
                details =
                    narrow_details-Subset subject.authorization_details req.authorization_details
                      details (ap (λ p. p.0) p₁);
              }
