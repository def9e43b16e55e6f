-- ===== src/Auth/Clients/Proofs.antt =====
-- What a successful client authentication has checked, and what it leaves alone.
use identity_platform_go.Base.{
  ◌>>=◌, ℕ, suc, ◌≤◌, ◌≡◌, true, false, ◌⊎◌, inl, inr, Option, none, some, String, ok, arith,
  contains, is_empty, Option-cases, Bool-cases, eq_iff,
}
use identity_platform_go.Base.Dict.{Dict, lookup, lookup-insert_self}
use identity_platform_go.Auth.Domain.{Client}
use identity_platform_go.Auth.Requests.{GrantRequest}
use identity_platform_go.Auth.Store.{find_client, mark_assertion}
use identity_platform_go.Auth.World.{Env, World, Assertion, now}
use identity_platform_go.Auth.Clients.{authenticate, authenticate_assertion, authenticate_client}

-- Authentication changes no repository but the cache of assertion identifiers.
pub record SameStores (w w' : World) : Type 0 where
  pub clients : w'.clients ≡ w.clients
  pub codes : w'.codes ≡ w.codes
  pub tokens : w'.tokens ≡ w.tokens
  pub refresh_tokens : w'.refresh_tokens ≡ w.refresh_tokens
  pub devices : w'.devices ≡ w.devices
  pub proof_jtis : w'.proof_jtis ≡ w.proof_jtis
  pub events : w'.events ≡ w.events

authenticate-same : (id secret : String) (w : World) → SameStores w (authenticate id secret w).1
unfolding authenticate
authenticate-same id secret w = ground arith

authenticate_assertion-same :
    (env : Env) (parse : ℕ → String → String → Option Assertion) (id a : String) (w : World)
    → SameStores w (authenticate_assertion env parse id a w).1
unfolding authenticate_assertion now ◌>>=◌
authenticate_assertion-same env parse id a w = ground arith

pub authenticate_client-same :
    (env : Env) (req : GrantRequest) (w : World) → SameStores w (authenticate_client env req w).1
unfolding authenticate_client now ◌>>=◌
authenticate_client-same env req w = ground arith

-- The replay cache has no entry for the identifier that lasts beyond the time.
abbrev pub Unused : String → ℕ → Dict ℕ → Type 0
Unused jti at d = (lookup jti d ≡ none) ⊎ ((exp : ℕ) × (lookup jti d ≡ some exp) × (exp ≤ at))

-- What the accepted assertion of a client has shown, in a call that begins in `w`. The parser has
-- the first reading of the clock and the replay cache the second.
pub record Accepted (env : Env) (c : Client) (w w' : World) (id assertion : String) : Type 0 where
  pub parse : ℕ → String → String → Option Assertion
  pub claims : Assertion
  pub expiry : ℕ
  pub wired : env.parse_assertion ≡ some parse
  pub registered : is_empty c.jwks_uri ≡ false
  pub verified : parse (env.clock w.readings) assertion c.jwks_uri ≡ some claims
  pub issuer : claims.issuer ≡ id
  pub subject : claims.subject ≡ id
  pub audience : contains claims.audience env.assertion_audience ≡ true
  pub expires : claims.expires_at ≡ some expiry
  pub identified : is_empty claims.jti ≡ false
  pub fresh : Unused claims.jti (env.clock (suc w.readings)) w.assertion_jtis
  pub recorded : lookup claims.jti w'.assertion_jtis ≡ some expiry

lookup_of_find :
    (id : String) (d : Dict Client) (c : Client) → find_client id d ≡ ok c → lookup id d ≡ some c
unfolding find_client
lookup_of_find id d c e = ground arith

pub authenticate_sound :
    (id secret : String) (w w' : World) (c : Client)
    → authenticate id secret w ≡ (ok c, w')
    → (lookup id w.clients ≡ some c) × (c.secret ≡ secret)
unfolding authenticate
authenticate_sound id secret w w' c e = ground (arith, eq_iff c.secret secret)

records :
    (t : ℕ) (k : String) (e : ℕ) (d : Dict ℕ)
    → (mark_assertion t k e d).0 ≡ ok tt
    → lookup k (mark_assertion t k e d).1 ≡ some e
unfolding mark_assertion
records t k e d h = ground (arith, lookup-insert_self k e d)

unused :
    (t : ℕ) (k : String) (e : ℕ) (d : Dict ℕ) → (mark_assertion t k e d).0 ≡ ok tt → Unused k t d
unfolding mark_assertion
unused t k e d h = elim (Option-cases (lookup k d)) [
  | inl q ↦ inl q
  | inr (exp, q) ↦ inr (exp, q, ground arith)
]

module _ (env : Env) (parse : ℕ → String → String → Option Assertion) (id a : String) (w w' : World)
    (c c₀ : Client) (claims : Assertion) (exp : ℕ) (wired : env.parse_assertion ≡ some parse)
    (e : authenticate_assertion env parse id a w ≡ (ok c, w'))
    (found : lookup id w.clients ≡ some c₀)
    (parsed : parse (env.clock w.readings) a c₀.jwks_uri ≡ some claims)
    (expires : claims.expires_at ≡ some exp) where
  assertion_steps :
      (lookup id w.clients ≡ some c)
      × (is_empty c.jwks_uri ≡ false)
      × (parse (env.clock w.readings) a c.jwks_uri ≡ some claims)
      × (claims.issuer ≡ id)
      × (claims.subject ≡ id)
      × (contains claims.audience env.assertion_audience ≡ true)
      × (is_empty claims.jti ≡ false)
      × ((mark_assertion (env.clock (suc w.readings)) claims.jti exp w.assertion_jtis).0 ≡ ok tt)
      × (lookup claims.jti w'.assertion_jtis ≡ some exp)
  unfolding authenticate_assertion now find_client ◌>>=◌
  assertion_steps = ground (
    arith,
    eq_iff claims.issuer id,
    eq_iff claims.subject id,
    records (env.clock (suc w.readings)) claims.jti exp w.assertion_jtis,
  )

  assertion-Accepted : (lookup id w.clients ≡ some c) × Accepted env c w w' id a
  assertion-Accepted =
      let (found', registered, verified, issuer, subject, audience, identified, marked, recorded) =
        assertion_steps in
      (
        found',
        record {
          parse = parse;
          claims = claims;
          expiry = exp;
          wired = wired;
          registered = registered;
          verified = verified;
          issuer = issuer;
          subject = subject;
          audience = audience;
          expires = expires;
          identified = identified;
          fresh = unused (env.clock (suc w.readings)) claims.jti exp w.assertion_jtis marked;
          recorded = recorded;
        },
      )

no_client :
    (env : Env) (parse : ℕ → String → String → Option Assertion) (id a : String) (w w' : World)
    (c : Client)
    → lookup id w.clients ≡ none
    → authenticate_assertion env parse id a w ≡ (ok c, w')
    → ⊥
unfolding authenticate_assertion find_client ◌>>=◌
no_client env parse id a w w' c q e = ground arith

no_parse :
    (env : Env) (parse : ℕ → String → String → Option Assertion) (id a : String) (w w' : World)
    (c c₀ : Client)
    → lookup id w.clients ≡ some c₀
    → parse (env.clock w.readings) a c₀.jwks_uri ≡ none
    → authenticate_assertion env parse id a w ≡ (ok c, w')
    → ⊥
unfolding authenticate_assertion now find_client ◌>>=◌
no_parse env parse id a w w' c c₀ q r e = ground arith

no_expiry :
    (env : Env) (parse : ℕ → String → String → Option Assertion) (id a : String) (w w' : World)
    (c c₀ : Client) (claims : Assertion)
    → lookup id w.clients ≡ some c₀
    → parse (env.clock w.readings) a c₀.jwks_uri ≡ some claims
    → claims.expires_at ≡ none
    → authenticate_assertion env parse id a w ≡ (ok c, w')
    → ⊥
unfolding authenticate_assertion now find_client ◌>>=◌
no_expiry env parse id a w w' c c₀ claims q r x e = ground arith

authenticate_assertion_sound :
    (env : Env) (parse : ℕ → String → String → Option Assertion) (id a : String) (w w' : World)
    (c : Client)
    → env.parse_assertion ≡ some parse
    → authenticate_assertion env parse id a w ≡ (ok c, w')
    → (lookup id w.clients ≡ some c) × Accepted env c w w' id a
authenticate_assertion_sound env parse id a w w' c wired e =
    elim (Option-cases (lookup id w.clients)) [
      | inl q ↦ absurd (no_client env parse id a w w' c q e)
      | inr (c₀, q) ↦ elim (Option-cases (parse (env.clock w.readings) a c₀.jwks_uri)) [
        | inl r ↦ absurd (no_parse env parse id a w w' c c₀ q r e)
        | inr (claims, r) ↦ elim (Option-cases claims.expires_at) [
          | inl x ↦ absurd (no_expiry env parse id a w w' c c₀ claims q r x e)
          | inr (exp, x) ↦ assertion-Accepted env parse id a w w' c c₀ claims exp wired e q r x
        ]
      ]
    ]

-- The state behind the authentication of the request's client
abbrev pub behind : Env → GrantRequest → World → World
behind env req w = (authenticate_client env req w).1

-- The two ways in which a request authenticates a client.
abbrev pub Authentic : Env → Client → World → World → GrantRequest → Type 0
Authentic env c w w' req =
    ((is_empty req.client_assertion ≡ true) × (c.secret ≡ req.client_secret))
    ⊎ Accepted env c w w' req.client_id req.client_assertion

-- A client that authenticates is registered under the request's client_id. It has presented its
-- secret, or, where the request carries an assertion, that assertion verifies at that time against
-- the client's registered JWKS URI, names the client as issuer and subject and this server as
-- audience, has an expiry and a jti, and the jti was not recorded as used beyond that time and is
-- now recorded up to the expiry.
pub authenticate_client_sound :
    (env : Env) (req : GrantRequest) (w w' : World) (c : Client)
    → authenticate_client env req w ≡ (ok c, w')
    → (lookup req.client_id w.clients ≡ some c) × Authentic env c w w' req
unfolding authenticate_client ◌>>=◌
authenticate_client_sound env req w w' c e = elim (Bool-cases (is_empty req.client_assertion)) [
  | inl plain ↦
      let (found, secret) =
        authenticate_sound req.client_id req.client_secret w w' c (rw plain at e) in
      (found, inl (plain, secret))
  | inr signed ↦ elim (Option-cases env.parse_assertion) [
    | inl unwired ↦ absurd (ground arith)
    | inr (parse, wired) ↦
        let (found, accepted) =
          authenticate_assertion_sound env parse req.client_id req.client_assertion w w' c wired
            (rw (signed, wired) at e) in
        (found, inr accepted)
  ]
]
