-- ===== src/Registry/Sound.antt =====
-- The credentials that a registration answers are the ones that the registry accepts.
use identity_platform_go.Base.{
  ℕ, ◌≡◌, refl, arith, ap, sym, subst, ◌∙◌, true, false, ◌⊎◌, inl, inr, some, none, Option-cases,
  Bool-cases, String, [], ◌∷◌, ok, Result, ◌>>=◌, >>=-elim, pure-ok, is_empty, ◌==◌, pure, lift,
}
use identity_platform_go.Base.Dict.{lookup, lookup-insert_self}
use identity_platform_go.Registry.{
  OAuthClient, kind_confidential, kind_public, Failure, Setup, RegistryEvent, RegistryState,
  read_clock, generate_hex, hash_password, emit_registry, save_stored, generate_secret_for,
}
use identity_platform_go.Registry.Clients.{validate_client_secret}
use identity_platform_go.Registry.Registration.{
  RegistrationRequest, RegistrationResponse, validate_shape, validate_redirects, validate_content,
  kind_of, generate_token, registered, register, to_response, default_responses,
}
use identity_platform_go.Registry.Management.{authorize_management, read_registration}
use identity_platform_go.Registry.Shapes.{kind_of-cases}

-- bcrypt accepts the text it has hashed, and neither its hashes nor the drawn texts are empty.
pub record Bcrypt (env : Setup) : Type 0 where
  pub accepts :
      (n : ℕ) (plain hash : String)
      → env.hash n plain ≡ some hash
      → (env.compare_hash hash plain ≡ true) × (is_empty hash ≡ false)
  pub drawn : (n : ℕ) (s : String) → env.random n ≡ some s → is_empty s ≡ false

-- A pair of a text and its hash
abbrev Hashed : Setup → String × String → Type 0
Hashed env v = (env.compare_hash v.1 v.0 ≡ true) × (is_empty v.1 ≡ false) × (is_empty v.0 ≡ false)

lift-ok :
    {A : Type 0} (r : Result Failure A) (s s' : RegistryState) (a : A)
    → lift r s ≡ (ok a, s')
    → s' ≡ s
lift-ok r s s' a e = ground arith

hex-ok :
    (env : Setup) (s s' : RegistryState) (x : String)
    → generate_hex env s ≡ (ok x, s')
    → (env.random s.draws ≡ some x) × (s'.clients ≡ s.clients)
unfolding generate_hex
hex-ok env s s' x e = elim (Option-cases (env.random s.draws)) [
  | inl q ↦ absurd (ground arith)
  | inr (r, q) ↦ (ground arith, ground arith)
]

hash-ok :
    (env : Setup) (plain : String) (s s' : RegistryState) (x : String)
    → hash_password env plain s ≡ (ok x, s')
    → (env.hash s.hashes plain ≡ some x) × (s'.clients ≡ s.clients)
unfolding hash_password
hash-ok env plain s s' x e = elim (Option-cases (env.hash s.hashes plain)) [
  | inl q ↦ absurd (ground arith)
  | inr (r, q) ↦ (ground arith, ground arith)
]

module _ (env : Setup) (bcrypt : Bcrypt env) where
  token-Hashed :
      (s s' : RegistryState) (v : String × String)
      → generate_token env s ≡ (ok v, s')
      → Hashed env v × (s'.clients ≡ s.clients)
  unfolding generate_token
  token-Hashed s s' v e = >>=-elim _ _ e λ plain s₁ q₁ e₁. >>=-elim _ _ e₁ λ hash s₂ q₂ e₂.
      let (drawn, a) = hex-ok env s s₁ plain q₁ in
      let (hashed, b) = hash-ok env plain s₁ s₂ hash q₂ in
      let (p, c) = pure-ok (plain, hash) v s₂ s' e₂ in
      let (accepts, full) = bcrypt.accepts s₁.hashes plain hash hashed in
      let h : Hashed env (plain, hash) = (accepts, full, bcrypt.drawn s.draws plain drawn) in
      (subst (Hashed env) p h, sym (ap (λ x. x.clients) c) ∙ b ∙ a)

  -- A confidential client gets a secret with its hash, a public one neither.
  secret-Hashed :
      (kind : String) (s s' : RegistryState) (v : String × String)
      → (kind ≡ kind_confidential) ⊎ (kind ≡ kind_public)
      → generate_secret_for env kind s ≡ (ok v, s')
      → ((kind ≡ kind_confidential) × Hashed env v ⊎ (kind ≡ kind_public))
        × (s'.clients ≡ s.clients)
  unfolding generate_secret_for generate_token ◌>>=◌
  secret-Hashed kind s s' v (inl q) e =
      let run : generate_token env s ≡ (ok v, s') =
        subst (λ k. generate_secret_for env k s ≡ (ok v, s')) q e in
      let (h, same) = token-Hashed s s' v run in (inl (q, h), same)
  secret-Hashed kind s s' v (inr q) e =
      let run : pure {E = Failure} ("", "") s ≡ (ok v, s') =
        subst (λ k. generate_secret_for env k s ≡ (ok v, s')) q e in
      (inr q, ground arith)

clock-ok :
    (env : Setup) (s s' : RegistryState) (t : ℕ)
    → read_clock env s ≡ (ok t, s')
    → s'.clients ≡ s.clients
unfolding read_clock
clock-ok env s s' t e = ground arith

save-ok :
    (c : OAuthClient) (s s' : RegistryState)
    → save_stored c s ≡ (ok tt, s')
    → (lookup c.id s.clients ≡ none) × (lookup c.id s'.clients ≡ some c)
unfolding save_stored
save-ok c s s' e = elim (Option-cases (lookup c.id s.clients)) [
  | inl q ↦ (q, ground (arith, lookup-insert_self c.id c s.clients))
  | inr (d, q) ↦ absurd (ground arith)
]

emit-ok :
    (env : Setup) (x : RegistryEvent) (s s' : RegistryState)
    → emit_registry env x s ≡ (ok tt, s')
    → (s'.clients ≡ s.clients) × (s'.events ≡ x ∷ s.events)
unfolding emit_registry
emit-ok env x s s' e = elim (Bool-cases (env.sink s.emissions)) [
  | inl q ↦ (ground arith, ground arith)
  | inr q ↦ absurd (ground arith)
]

-- A client's own secret, if it is stored with its hash and the client is active
validate-stored :
    (env : Setup) (c : OAuthClient) (id secret : String) (s : RegistryState)
    → lookup id s.clients ≡ some c
    → c.active ≡ true
    → ((c.kind ≡ kind_confidential) × Hashed env (secret, c.secret)) ⊎ (c.kind ≡ kind_public)
    → validate_client_secret env id secret s ≡ true
unfolding validate_client_secret
validate-stored env c id secret s held active (inl (q, h)) =
    let test : (c.kind == kind_public) ≡ false =
      subst (λ k. (k == kind_public) ≡ false) (sym q) refl in
    let accepts : env.compare_hash c.secret secret ≡ true = h.0 in
    let given : is_empty secret ≡ false = h.2 in ground arith
validate-stored env c id secret s held active (inr q) =
    let test : (c.kind == kind_public) ≡ true =
      subst (λ k. (k == kind_public) ≡ true) (sym q) refl in
    ground arith

read-stored :
    (env : Setup) (c : OAuthClient) (id token : String) (s : RegistryState)
    → lookup id s.clients ≡ some c
    → Hashed env (token, c.token_hash)
    → read_registration env id token s ≡ (ok (to_response env c "" ""), s)
unfolding read_registration authorize_management ◌>>=◌
read-stored env c id token s held (accepts, full, given) = ground arith

-- What is known of a registration that succeeded
record Stored (env : Setup) (req : RegistrationRequest) (s s' : RegistryState)
    (resp : RegistrationResponse) : Type 0 where
  pub client : OAuthClient
  pub fresh : lookup resp.client_id s.clients ≡ none
  pub held : lookup resp.client_id s'.clients ≡ some client
  pub active : client.active ≡ true
  pub secret :
      (client.kind ≡ kind_confidential) × Hashed env (resp.client_secret, client.secret)
      ⊎ (client.kind ≡ kind_public)
  pub token : Hashed env (resp.access_token, client.token_hash)
  pub answer : resp ≡ record (to_response env client resp.client_secret resp.access_token) {
    response_types = default_responses req.response_types;
  }

module _ (env : Setup) (bcrypt : Bcrypt env) where
  register-Stored :
      (req : RegistrationRequest) (s s' : RegistryState) (resp : RegistrationResponse)
      → register env req s ≡ (ok resp, s')
      → Stored env req s s' resp
  unfolding register to_response
  register-Stored req s s' resp e = >>=-elim _ _ e λ v s₁ q₁ e₁. >>=-elim _ _ e₁ λ _ s₂ q₂ e₂.
      >>=-elim _ _ e₂ λ _ s₃ q₃ e₃. >>=-elim _ _ e₃ λ id s₄ q₄ e₄. >>=-elim _ _ e₄ λ x s₅ q₅ e₅.
        >>=-elim _ _ e₅ λ t s₆ q₆ e₆. >>=-elim _ _ e₆ λ at s₇ q₇ e₇. >>=-elim _ _ e₇ λ _ s₈ q₈ e₈.
          >>=-elim _ _ e₈ λ _ s₉ q₉ e₉.
            let p₁ = lift-ok (validate_shape req) s s₁ v q₁ in
            let p₂ = lift-ok (validate_redirects env req.redirect_uris v.0) s₁ s₂ tt q₂ in
            let p₃ = lift-ok (validate_content env req) s₂ s₃ tt q₃ in
            let (_, p₄) = hex-ok env s₃ s₄ id q₄ in
            let (secret, p₅) =
              secret-Hashed env bcrypt (kind_of v.1) s₄ s₅ x (kind_of-cases v.1) q₅ in
            let (token, p₆) = token-Hashed env bcrypt s₅ s₆ t q₆ in
            let p₇ = clock-ok env s₆ s₇ at q₇ in
            let c = registered req v.0 v.1 id x.1 t.1 at in
            let (fresh, held) = save-ok c s₇ s₈ q₈ in
            let (p₉, _) = emit-ok env _ s₈ s₉ q₉ in
            let (a, b) = pure-ok _ resp s₉ s' e₉ in
            let client : Stored env req s s' (record (to_response env c x.0 t.0) {
              response_types = default_responses req.response_types;
            }) =
              record {
                client = c;
                fresh =
                    subst (λ d. lookup id d ≡ none)
                      (p₇ ∙ p₆ ∙ p₅ ∙ p₄ ∙ ap (λ z. z.clients) (p₃ ∙ p₂ ∙ p₁)) fresh;
                held = subst (λ d. lookup id d ≡ some c) (sym p₉ ∙ ap (λ z. z.clients) b) held;
                active = refl;
                secret = secret;
                token = token;
                answer = refl;
              } in
            subst (Stored env req s s') a client

  -- A client that registers gets an ID that was free. The secret in the answer authenticates it, and
  -- the registration access token in the answer reads back the same registration, in which only the
  -- secret and the token are left out and the response types are those of a code, where bcrypt
  -- accepts what it has hashed.
  pub register-read_registration :
      (req : RegistrationRequest) (s s' : RegistryState) (resp : RegistrationResponse)
      → register env req s ≡ (ok resp, s')
      → (lookup resp.client_id s.clients ≡ none)
        × (validate_client_secret env resp.client_id resp.client_secret s' ≡ true)
        × (read_registration env resp.client_id resp.access_token s' ≡ (
          ok (record resp { client_secret = ""; access_token = ""; response_types = "code" ∷ [] }),
          s',
        ))
  unfolding to_response
  register-read_registration req s s' resp e =
      let stored = register-Stored req s s' resp e in
      (
        stored.fresh,
        validate-stored env stored.client resp.client_id resp.client_secret s' stored.held
            stored.active stored.secret,
        read-stored env stored.client resp.client_id resp.access_token s' stored.held stored.token
            ∙ ap
                (λ (r : RegistrationResponse). (
                  ok (record r {
                    client_secret = "";
                    access_token = "";
                    response_types = "code" ∷ [];
                  }),
                  s',
                ))
                (sym stored.answer),
      )
