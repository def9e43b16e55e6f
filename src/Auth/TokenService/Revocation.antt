-- ===== src/Auth/TokenService/Revocation.antt =====
-- Introspect and Revoke of token_service.go, against the token store.
use identity_platform_go.Base.{
  ◌>>=◌, suc, ◌≡◌, false, ◌⊎◌, inl, inr, String, ok, arith, some, none, Bool-cases, Result-cases,
  Option-cases, eq_iff,
}
use identity_platform_go.Base.Dict.{lookup, lookup-erase, lookup-erase_self}
use identity_platform_go.Auth.Domain.{Token, token_expired}
use identity_platform_go.Auth.Store.{find_token, delete_token, delete_refresh}
use identity_platform_go.Auth.World.{Env, World, now}
use identity_platform_go.Auth.Tokens.{validate}
use identity_platform_go.Auth.TokenService.{introspect, revoke, inactive, described}

-- What makes the answer for a raw token active.
pub record Active (env : Env) (raw : String) (w : World) : Type 0 where
  pub token : Token
  pub stored : Token
  pub valid : (validate env raw w).0 ≡ ok token
  pub live : token_expired token (env.clock (suc w.readings)) ≡ false
  pub kept : lookup raw w.tokens ≡ some stored

validate-world :
    (env : Env) (raw : String) (w : World)
    → (validate env raw w).1 ≡ record w { readings = suc w.readings }
unfolding validate now ◌>>=◌
validate-world env raw w = ground arith

-- A token is active exactly when it validates, is not expired when it is asked about and is in the
-- token store; the answer is then made of the validated token and the stored one.
pub introspect-Active :
    (env : Env) (raw : String) (w : World)
    → ((a : Active env raw w) × ((introspect env raw w).0 ≡ described a.token a.stored))
      ⊎ (((introspect env raw w).0 ≡ inactive) × (Active env raw w → ⊥))
unfolding introspect find_token
introspect-Active env raw w =
    let after = validate-world env raw w in
    elim (Result-cases (validate env raw w).0) [
      | inr (x, q) ↦
          inr (
            ground arith,
            λ a. let p : (validate env raw w).0 ≡ ok a.token = a.valid in ground arith,
          )
      | inl (token, q) ↦ elim (Bool-cases (token_expired token (env.clock (suc w.readings)))) [
        | inl late ↦ inr (
          ground arith,
          λ a.
              let p : (validate env raw w).0 ≡ ok a.token = a.valid in
              let l : token_expired a.token (env.clock (suc w.readings)) ≡ false = a.live in
              ground arith,
        )
        | inr live ↦ elim (Option-cases (lookup raw w.tokens)) [
          | inl gone ↦ inr (
            ground arith,
            λ a. let k : lookup raw w.tokens ≡ some a.stored = a.kept in ground arith,
          )
          | inr (stored, kept) ↦ inl (
            record { token = token; stored = stored; valid = q; live = live; kept = kept },
            ground arith,
          )
        ]
      ]
    ]

revoke-tokens : (raw : String) (w : World) → lookup raw (revoke raw w).tokens ≡ none
unfolding revoke delete_token
revoke-tokens raw w = ground (arith, lookup-erase_self raw w.tokens)

-- A revoked token is inactive, at whatever time and however often it is asked about, and no
-- refresh token is stored under its value; every other token and refresh token stays as it was.
pub revoke_lem :
    (env : Env) (raw other : String) (w : World)
    → ((introspect env raw (revoke raw w)).0 ≡ inactive)
      × (lookup raw (revoke raw w).refresh_tokens ≡ none)
      × ((raw ≡ other)
          ⊎ ((lookup other (revoke raw w).tokens ≡ lookup other w.tokens)
              × (lookup other (revoke raw w).refresh_tokens ≡ lookup other w.refresh_tokens)))
unfolding revoke delete_token delete_refresh
revoke_lem env raw other w = (
  elim (introspect-Active env raw (revoke raw w)) [
    | inr (q, _) ↦ q
    | inl (a, _) ↦
        let k : lookup raw (revoke raw w).tokens ≡ some a.stored = a.kept in
        let gone = revoke-tokens raw w in absurd (ground arith)
  ],
  ground (arith, lookup-erase_self raw w.refresh_tokens),
  ground (
    arith,
    eq_iff raw other,
    lookup-erase raw other w.tokens,
    lookup-erase raw other w.refresh_tokens,
  ),
)
