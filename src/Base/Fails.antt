-- ===== src/Base/Fails.antt =====
-- What holds of every failure of an action, one rule for each way to build an action.
use mathlib.Core.Path.{◌≡◌, ap, sym, subst, ◌∙◌}
use mathlib.Core.Logic.{inl, inr}
use mathlib.Core.Bool.{Bool, true, false}
use mathlib.Core.Option.{Option, none, some}
use native.Mathlib.Omega.{arith}
use identity_platform_go.Base.Tests.{if◌then◌else◌}
use identity_platform_go.Base.Results.{
  Action, Result, Result-cases, err, pure, fail, or_fail, ◌>>=◌, fail_if, >>=_ok, >>=_err,
}

err-inj {ℓ κ} : {E : Type ℓ} {A : Type κ} {x y : E} → ◌≡◌ {A = Result E A} (err x) (err y) → x ≡ y
err-inj e = cc

-- Every error of `m` has `P`.
pub record Fails {ℓ} {S E A : Type ℓ} (P : E → Type ℓ) (m : Action S E A) : Type ℓ where
  pub at : (s : S) (e : E) → (m s).0 ≡ err e → P e

module _ {ℓ} {S E A : Type ℓ} {P : E → Type ℓ} where
  pub Fails-pure : (a : A) → Fails {S = S} P (pure a)
  Fails-pure a = record { at = λ s e q. absurd (ground arith) }

  pub Fails-fail : (x : E) → P x → Fails {S = S} {A = A} P (fail x)
  Fails-fail x p = record { at = λ s e q. subst P (err-inj q) p }

  pub Fails-or_fail : (o : Option A) (x : E) → P x → Fails {S = S} P (or_fail o x)
  Fails-or_fail none x p = record { at = λ s e q. subst P (err-inj q) p }
  Fails-or_fail (some a) x p = record { at = λ s e q. absurd (ground arith) }

  pub Fails-if :
      (b : Bool) (m n : Action S E A) → Fails P m → Fails P n → Fails P (if b then m else n)
  Fails-if true m n km kn = km
  Fails-if false m n km kn = kn

module _ {ℓ} {S E : Type ℓ} {P : E → Type ℓ} where
  pub Fails-fail_if : (b : Bool) (x : E) → P x → Fails {S = S} P (fail_if b x)
  Fails-fail_if true x p = record { at = λ s e q. subst P (err-inj q) p }
  Fails-fail_if false x p = record { at = λ s e q. absurd (ground arith) }

module _ {ℓ} {S E A B : Type ℓ} {P : E → Type ℓ} (m : Action S E A) (f : A → Action S E B) where
  pub Fails-bind : Fails P m → ((a : A) → Fails P (f a)) → Fails P (m >>= f)
  Fails-bind fm ff = record {
    at = λ s e q. elim (Result-cases (m s).0) [
      | inl (a, r) ↦
          let run = >>=_ok m f (ap (λ x. (x, (m s).1)) r) in
          (ff a).at (m s).1 e (sym (ap (λ x. x.0) run) ∙ q)
      | inr (x, r) ↦
          let run = >>=_err m f (ap (λ y. (y, (m s).1)) r) in
          subst P (err-inj (sym (ap (λ y. y.0) run) ∙ q)) (fm.at s x r)
    ];
  }

pub ruleset fails_rules =
    (Fails-pure, Fails-fail, Fails-or_fail, Fails-if, Fails-fail_if, Fails-bind)
