-- ===== src/Base/Results.antt =====
-- Fallible code. The error codes are those of go-platform's apperrors that the services use.
use mathlib.Core.Path.{◌≡◌, refl}
use mathlib.Core.Option.{Option, none, some}
use mathlib.Core.Bool.{Bool, true, false}
use mathlib.Core.Logic.{◌⊎◌, inl, inr}
use native.Mathlib.Omega.{arith}

pub data ErrorCode : Type 0 where
  bad_request unauthorized forbidden missing conflict internal : ErrorCode

-- A Go pair `(value, err)`: one of the two.
pub data Result {ℓ κ} (E : Type ℓ) (A : Type κ) : Type (ℓ ⊔ κ) where
  ok : A → Result E A
  err : E → Result E A

-- A method on shared state: the state comes back after a failure too.
abbrev pub Action {ℓ} : Type ℓ → Type ℓ → Type ℓ → Type ℓ
Action S E A = S → Result E A × S

module _ {ℓ} {S E A : Type ℓ} where
  abbrev pub pure : A → Action S E A
  pure a s = (ok a, s)

  abbrev pub fail : E → Action S E A
  fail e s = (err e, s)

  abbrev pub lift : Result E A → Action S E A
  lift r s = (r, s)

  abbrev pub gets : (S → A) → Action S E A
  gets f s = (ok (f s), s)

  abbrev pub or_fail : Option A → E → Action S E A
  or_fail none e s = (err e, s)
  or_fail (some a) e s = (ok a, s)

-- `x, _ = call()`: the error is dropped, and a failure reads as the zero value.
abbrev pub or_else {ℓ} : {A : Type ℓ} → A → Option A → A
or_else d none = d
or_else d (some a) = a

infixl 5 ◌>>=◌ ◌>>◌
unfoldable pub ◌>>=◌ {ℓ} : {S E A B : Type ℓ} → Action S E A → (A → Action S E B) → Action S E B
◌>>=◌ m f s = let (r, s') = m s in elim r [ ok a ↦ f a s' | err e ↦ (err e, s') ]

abbrev pub ◌>>◌ {ℓ} : {S E A B : Type ℓ} → Action S E A → Action S E B → Action S E B
m >> k = m >>= λ _. k

abbrev pub modify {ℓ} : {S E : Type ℓ} → (S → S) → Action S E (Unit {ℓ})
modify f s = (ok tt, f s)

abbrev pub fail_if {ℓ} : {S E : Type ℓ} → Bool → E → Action S E (Unit {ℓ})
fail_if true e s = (err e, s)
fail_if false e s = (ok tt, s)

pub Result-cases {ℓ κ} :
    {E : Type ℓ} {A : Type κ} (r : Result E A) → ((a : A) × (r ≡ ok a)) ⊎ ((e : E) × (r ≡ err e))
Result-cases (ok a) = inl (a, refl)
Result-cases (err e) = inr (e, refl)

-- Inversion of a successful bind, for proofs in which the parts stay shut.
pub >>=-eq-ok {ℓ} :
    {S E A B : Type ℓ} (m : Action S E A) (f : A → Action S E B) {s s'' : S} {b : B}
    → (m >>= f) s ≡ (ok b, s'')
    → (a : A) × (s' : S) × (m s ≡ (ok a, s')) × (f a s' ≡ (ok b, s''))
unfolding ◌>>=◌
>>=-eq-ok m f {s} h = elim (Result-cases (m s).0) [
  | inl (a, q) ↦ (a, (m s).1, ground arith, ground arith)
  | inr (e, q) ↦ ground arith
]

-- The same as a rule: what follows from the two parts follows from the whole.
pub >>=-elim {ℓ κ} :
    {S E A B : Type ℓ} {P : Type κ} (m : Action S E A) (f : A → Action S E B) {s s'' : S} {b : B}
    → (m >>= f) s ≡ (ok b, s'')
    → ((a : A) (s' : S) → m s ≡ (ok a, s') → f a s' ≡ (ok b, s'') → P)
    → P
>>=-elim m f h k = let (a, s', p, q) = >>=-eq-ok m f h in k a s' p q

pub pure-ok {ℓ} :
    {S E A : Type ℓ} (a b : A) (s s' : S) → pure {E = E} a s ≡ (ok b, s') → (a ≡ b) × (s ≡ s')
pure-ok a b s s' h = (ground arith, ground arith)

-- A bind whose first part is known to succeed, or to fail.
pub >>=_ok {ℓ} :
    {S E A B : Type ℓ} (m : Action S E A) (f : A → Action S E B) {s s' : S} {a : A}
    → m s ≡ (ok a, s')
    → (m >>= f) s ≡ f a s'
unfolding ◌>>=◌
>>=_ok m f h = ground arith

pub >>=_err {ℓ} :
    {S E A B : Type ℓ} (m : Action S E A) (f : A → Action S E B) {s s' : S} {e : E}
    → m s ≡ (err e, s')
    → (m >>= f) s ≡ (err e, s')
unfolding ◌>>=◌
>>=_err m f h = ground arith

-- A guard that let the call pass.
pub fail_if-ok {ℓ} :
    {S E : Type ℓ} (b : Bool) (x : E) (s s' : S)
    → fail_if b x s ≡ (ok tt, s')
    → (b ≡ false) × (s' ≡ s)
fail_if-ok b x s s' e = (ground arith, ground arith)
