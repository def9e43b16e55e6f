-- ===== src/Base/Keeps.antt =====
-- Invariants of actions, one rule for each way to build an action.
use mathlib.Core.Path.{◌≡◌, refl, ap, sym, subst}
use mathlib.Core.Bool.{Bool, true, false}
use mathlib.Core.Logic.{inl, inr}
use mathlib.Core.Option.{Option, none, some}
use identity_platform_go.Base.Tests.{if◌then◌else◌}
use identity_platform_go.Base.Results.{>>=_ok, >>=_err}
use identity_platform_go.Base.Results.{
  Result-cases, Action, Result, ok, pure, fail, lift, or_fail, ◌>>=◌, ◌>>◌, modify, fail_if,
}

-- `m` keeps `P`, whether it succeeds or fails.
pub record Keeps {ℓ} {S E A : Type ℓ} (P : S → Type ℓ) (m : Action S E A) : Type ℓ where
  pub at : (s : S) → P s → P (m s).1

module _ {ℓ} {S E A : Type ℓ} {P : S → Type ℓ} where
  pub Keeps-pure : (a : A) → Keeps P (pure {E = E} a)
  Keeps-pure a = record { at = λ s h. h }

  pub Keeps-fail : (e : E) → Keeps P (fail {A = A} e)
  Keeps-fail e = record { at = λ s h. h }

  pub Keeps-lift : (r : Result E A) → Keeps P (lift r)
  Keeps-lift r = record { at = λ s h. h }

  pub Keeps-or_fail : (o : Option A) (e : E) → Keeps P (or_fail o e)
  Keeps-or_fail none e = record { at = λ s h. h }
  Keeps-or_fail (some a) e = record { at = λ s h. h }

  -- A call that only reads
  pub Keeps-still : (m : Action S E A) → ((s : S) → (m s).1 ≡ s) → Keeps P m
  Keeps-still m same = record { at = λ s h. subst P (sym (same s)) h }

  pub Keeps-if :
      (b : Bool) (m n : Action S E A) → Keeps P m → Keeps P n → Keeps P (if b then m else n)
  Keeps-if true m n km kn = km
  Keeps-if false m n km kn = kn

module _ {ℓ} {S E : Type ℓ} {P : S → Type ℓ} where
  pub Keeps-fail_if : (b : Bool) (e : E) → Keeps P (fail_if b e)
  Keeps-fail_if true e = record { at = λ s h. h }
  Keeps-fail_if false e = record { at = λ s h. h }

  pub Keeps-modify : (f : S → S) → ((s : S) → P s → P (f s)) → Keeps P (modify {E = E} f)
  Keeps-modify f k = record { at = k }

module _ {ℓ} {S E A B : Type ℓ} {P : S → Type ℓ} (m : Action S E A) (f : A → Action S E B) where
  -- The rest may use what a result of the first part has in a state with `P`.
  pub Keeps-bind_with :
      {Q : A → Type ℓ}
      → Keeps P m
      → ((s : S) (a : A) → P s → (m s).0 ≡ ok a → Q a)
      → ((a : A) → Q a → Keeps P (f a))
      → Keeps P (m >>= f)
  Keeps-bind_with km q kf = record {
    at = λ s h. elim (Result-cases (m s).0) [
      | inl (a, e) ↦
          let run = >>=_ok m f (ap (λ r. (r, (m s).1)) e) in
          subst (λ r. P r.1) (sym run) ((kf a (q s a h e)).at (m s).1 (km.at s h))
      | inr (x, e) ↦
          let run = >>=_err m f (ap (λ r. (r, (m s).1)) e) in
          subst (λ r. P r.1) (sym run) (km.at s h)
    ];
  }

  pub Keeps-bind : Keeps P m → ((a : A) → Keeps P (f a)) → Keeps P (m >>= f)
  Keeps-bind km kf = Keeps-bind_with {Q = λ _. Unit} km (λ _ _ _ _. tt) (λ a _. kf a)

-- Behind a guard, the guard's test is known.
pub Keeps-guard {ℓ} :
    {S E A : Type ℓ} {P : S → Type ℓ} (b : Bool) (e : E) (m : Action S E A)
    → (b ≡ false → Keeps P m)
    → Keeps P (fail_if b e >> m)
unfolding ◌>>=◌
Keeps-guard true e m km = record { at = λ s h. h }
Keeps-guard false e m km = Keeps-bind _ _ (Keeps-fail_if false e) λ _. km refl

pub ruleset keeps_rules =
    (Keeps-pure, Keeps-fail, Keeps-lift, Keeps-or_fail, Keeps-if, Keeps-fail_if, Keeps-bind)
