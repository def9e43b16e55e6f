-- ===== src/Base/Tests.antt =====
-- Boolean tests on native numbers, the conditional, membership in a list of texts.
use Prim.Native.Nat.{ℕ, suc, compare, Ordering}
use Prim.Native.String.{String}
use text.Mathlib.Text.{◌==◌}
use text.Mathlib.TextEquality.{eq_iff}
use text.Mathlib.TextPositions.{eq_refl}
use mathlib.Core.Path.{subst, ◌≡◌, refl}
use mathlib.Core.Logic.{◌≢◌, ◌⊎◌, inl, inr}
use mathlib.Core.Bool.{Bool, true, false, ◌||◌}
use mathlib.Core.Option.{Option, none, some}
use mathlib.Core.List.{List, [], ◌∷◌}
use native.Mathlib.Omega.{arith}

abbrev pub ltb : ℕ → ℕ → Bool
ltb a b = elim (compare a b) [ Ordering.lt ↦ true | _ ↦ false ]

abbrev pub leb : ℕ → ℕ → Bool
leb a b = elim (compare a b) [ Ordering.gt ↦ false | _ ↦ true ]

infix 1 if◌then◌else◌
abbrev pub if◌then◌else◌ {ℓ} : {A : Type ℓ} → Bool → A → A → A
if true then x else _ = x
if false then _ else y = y

pub Bool-cases : (b : Bool) → (b ≡ true) ⊎ (b ≡ false)
Bool-cases true = inl refl
Bool-cases false = inr refl

pub Option-cases {ℓ} : {A : Type ℓ} (o : Option A) → (o ≡ none) ⊎ ((a : A) × (o ≡ some a))
Option-cases none = inl refl
Option-cases (some a) = inr (a, refl)

pub eq_of_test : {s t : String} → (s == t) ≡ true → s ≡ t
eq_of_test {s} {t} h = (eq_iff s t).0 h

pub test_of_ne : {s t : String} → s ≢ t → (s == t) ≡ false
test_of_ne {s} {t} h = ground (arith, eq_iff s t)

pub ne_of_test : {s t : String} → (s == t) ≡ false → s ≢ t
ne_of_test {s} {t} h e = ground (arith, eq_iff s t)

-- `s == ""`, the test for an unset Go string.
abbrev pub is_empty : String → Bool
is_empty s = s == ""

module _ {ℓ} {A : Type ℓ} where
  abbrev pub length : List A → ℕ
  length [] = 0
  length (x ∷ xs) = suc (length xs)

  abbrev pub All {κ} : (A → Type κ) → List A → Type κ
  All P [] = Unit
  All P (x ∷ xs) = P x × All P xs

-- `slices.Contains` on a slice of strings.

unfoldable pub contains : List String → String → Bool
contains [] x = false
contains (y ∷ ys) x = y == x || contains ys x

-- Each text of the first list stands in the second.
abbrev pub Subset : List String → List String → Type 0
Subset xs ys = All (λ x. contains ys x ≡ true) xs

pub contains_weaken :
    (x y : String) (ys : List String) → contains ys x ≡ true → contains (y ∷ ys) x ≡ true
unfolding contains
contains_weaken x y ys h = ground arith

pub Subset_weaken : (xs ys : List String) (y : String) → Subset xs ys → Subset xs (y ∷ ys)
Subset_weaken [] ys y h = tt
Subset_weaken (x ∷ xs) ys y h = (contains_weaken x y ys h.0, Subset_weaken xs ys y h.1)

pub Subset_refl : (xs : List String) → Subset xs xs
unfolding contains
Subset_refl [] = tt
Subset_refl (x ∷ xs) = (ground (arith, eq_refl x), Subset_weaken xs xs x (Subset_refl xs))

pub Subset_member :
    (xs ys : List String) (x : String) → Subset xs ys → contains xs x ≡ true → contains ys x ≡ true
unfolding contains
Subset_member [] ys x h e = absurd (ground arith)
Subset_member (y ∷ xs) ys x h e = elim (Bool-cases (y == x)) [
  | inl q ↦ subst (λ z. contains ys z ≡ true) (eq_of_test q) h.0
  | inr q ↦ Subset_member xs ys x h.1 (ground arith)
]

pub Subset_trans : (xs ys zs : List String) → Subset xs ys → Subset ys zs → Subset xs zs
Subset_trans [] ys zs h k = tt
Subset_trans (x ∷ xs) ys zs h k = (Subset_member ys zs x k h.0, Subset_trans xs ys zs h.1 k)
