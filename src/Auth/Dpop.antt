-- ===== src/Auth/Dpop.antt =====
-- DPoPValidator of application/dpop_validator.go. The JWT parser is a parameter: a proof is what
-- parses under the key of its own header.
use identity_platform_go.Base.{
  ℕ, zero, suc, ◌+◌, ◌-◌, ◌*◌, Bool, true, false, Option, some, String, ok, err, ◌>>=◌, ◌>>◌,
  or_fail, fail_if, pure, not, ◌==◌, is_empty, ltb, ◌≡◌, ◌≤◌, arith, >>=-elim, pure-ok, eq_iff,
}
use identity_platform_go.Auth.Domain.{Error, invalid_proof}
use identity_platform_go.Base.{Option-cases, inl, inr}
use identity_platform_go.Base.Dict.{Dict, lookup, lookup-insert_self}
use identity_platform_go.Auth.Store.{mark_proof, mark_assertion, sweep}
use identity_platform_go.Auth.World.{Env, World, M, now, second}
use identity_platform_go.Auth.Details.{ℤ, pos, negsuc}

-- `dpopClaims`, and the thumbprint of the key in the header
pub record Proof : Type 0 where
  pub htm : String
  pub htu : String
  pub jti : String
  pub iat : ℤ
  pub thumbprint : Option String

-- `dpopProofFreshnessWindow`
abbrev pub freshness_window : ℕ
freshness_window = 300 * second

-- The Unix epoch
abbrev pub unix_epoch : ℕ
unix_epoch = 62_135_596_800 * second

-- `time.Unix(claims.IAT, 0)`: a date before Go's zero time counts as the zero time.
unfoldable pub issued_at : Proof → ℕ
issued_at p = elim p.iat [
  | pos n ↦ unix_epoch + n * second
  | negsuc n ↦ unix_epoch - (suc n * second)
]

abbrev pub is_zero : ℤ → Bool
is_zero (pos zero) = true
is_zero (pos (suc _)) = false
is_zero (negsuc _) = false

-- `validateClaims`. The clock is read again for the second comparison.
unfoldable pub check_proof : Env → Proof → String → String → M (Unit {0})
check_proof env p htm htu = do
  fail_if (not (p.htm == htm)) invalid_proof
  fail_if (not (p.htu == htu)) invalid_proof
  fail_if (is_empty p.jti) invalid_proof
  fail_if (is_zero p.iat) invalid_proof
  t ← now env
  fail_if (ltb (issued_at p + freshness_window) t) invalid_proof
  t' ← now env
  fail_if (ltb (t' + freshness_window) (issued_at p)) invalid_proof

-- `replayRepo.MarkUsed`
unfoldable pub use_proof : Env → String → ℕ → M (Unit {0})
unfolding mark_proof
use_proof env jti exp = do
  t ← now env
  λ w.
      let (r, d) = mark_proof t jti exp w.proof_jtis in
      (elim r [ ok _ ↦ ok tt | err _ ↦ err invalid_proof ], record w { proof_jtis = d })

-- `Validate`
unfoldable pub validate_proof : Env → (String → Option Proof) → String → String → String → M String
unfolding check_proof use_proof issued_at
validate_proof env parse raw htm htu = do
  p ← or_fail (parse raw) invalid_proof
  check_proof env p htm htu
  jkt ← or_fail p.thumbprint invalid_proof
  use_proof env p.jti (issued_at p + freshness_window)
  pure jkt

-- What a proof that is accepted has shown
pub record Proved (env : Env) (parse : String → Option Proof) (raw htm htu jkt : String)
    (w w' : World) : Type 0 where
  pub proof : Proof
  pub parsed : parse raw ≡ some proof
  pub method : proof.htm ≡ htm
  pub url : proof.htu ≡ htu
  pub key : proof.thumbprint ≡ some jkt
  pub not_old : env.clock w.readings ≤ issued_at proof + freshness_window
  pub not_early : issued_at proof ≤ env.clock (suc w.readings) + freshness_window
  pub recorded : lookup proof.jti w'.proof_jtis ≡ some (issued_at proof + freshness_window)

check_proof-ok :
    (env : Env) (p : Proof) (htm htu : String) (w w' : World)
    → check_proof env p htm htu w ≡ (ok tt, w')
    → (p.htm ≡ htm)
      × (p.htu ≡ htu)
      × (env.clock w.readings ≤ issued_at p + freshness_window)
      × (issued_at p ≤ env.clock (suc w.readings) + freshness_window)
unfolding check_proof now ◌>>=◌
check_proof-ok env p htm htu w w' e = ground (arith, eq_iff p.htm htm, eq_iff p.htu htu)

mark_assertion-ok :
    (t : ℕ) (jti : String) (exp : ℕ) (d d' : Dict ℕ)
    → mark_assertion t jti exp d ≡ (ok tt, d')
    → lookup jti d' ≡ some exp
unfolding mark_assertion
mark_assertion-ok t jti exp d d' e = ground (arith, lookup-insert_self jti exp d)

use_proof-ok :
    (env : Env) (jti : String) (exp : ℕ) (w w' : World)
    → use_proof env jti exp w ≡ (ok tt, w')
    → lookup jti w'.proof_jtis ≡ some exp
unfolding use_proof mark_proof now ◌>>=◌
use_proof-ok env jti exp w w' e = ground (
  arith,
  mark_assertion-ok (env.clock w.readings) jti exp (sweep (env.clock w.readings) w.proof_jtis)
      w'.proof_jtis,
)

or_fail-ok :
    {A : Type 0} (o : Option A) (x : Error) (w w' : World) (a : A)
    → or_fail o x w ≡ (ok a, w')
    → (o ≡ some a) × (w ≡ w')
or_fail-ok o x w w' a e = elim (Option-cases o) [ inl q ↦ ground arith | inr (b, q) ↦ ground arith ]

-- A DPoP proof that is accepted verifies under the key in its own header, whose thumbprint is the
-- answer. It names the request's method and URL, was issued within the freshness window of the
-- clock on either side, and its jti is now recorded as used until the window behind its issue ends.
pub validate_proof-Proved :
    (env : Env) (parse : String → Option Proof) (raw htm htu jkt : String) (w w' : World)
    → validate_proof env parse raw htm htu w ≡ (ok jkt, w')
    → Proved env parse raw htm htu jkt w w'
unfolding validate_proof
validate_proof-Proved env parse raw htm htu jkt w w' e = >>=-elim _ _ e λ p w₁ q₁ e₁.
    >>=-elim _ _ e₁ λ _ w₂ q₂ e₂. >>=-elim _ _ e₂ λ k w₃ q₃ e₃. >>=-elim _ _ e₃ λ _ w₄ q₄ e₄.
      let (a₁, s₁) = or_fail-ok (parse raw) invalid_proof w w₁ p q₁ in
      let (m, u, o, y) = check_proof-ok env p htm htu w₁ w₂ q₂ in
      let (a₃, s₃) = or_fail-ok p.thumbprint invalid_proof w₂ w₃ k q₃ in
      let r = use_proof-ok env p.jti (issued_at p + freshness_window) w₃ w₄ q₄ in
      let (a₅, s₅) = pure-ok k jkt w₄ w' e₄ in
      record {
        proof = p;
        parsed = a₁;
        method = m;
        url = u;
        key = ground arith;
        not_old = rw s₁ o;
        not_early = rw s₁ y;
        recorded = ground arith;
      }
