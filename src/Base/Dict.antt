-- ===== src/Base/Dict.antt =====
-- A Go map with string keys, as an association list. Reading a missing key is `none`.
use Prim.Native.String.{String}
use text.Mathlib.Text.{◌==◌}
use text.Mathlib.TextEquality.{eq_iff}
use text.Mathlib.TextPositions.{eq_refl}
use mathlib.Core.Path.{◌≡◌, refl}
use mathlib.Core.Logic.{◌≢◌, inl, inr}
use mathlib.Core.Option.{Option, none, some}
use mathlib.Core.List.{List, [], ◌∷◌}
use native.Mathlib.Omega.{arith}
use identity_platform_go.Base.Tests.{if◌then◌else◌, test_of_ne, Bool-cases}

abbrev pub Dict {ℓ} : Type ℓ → Type ℓ
Dict V = List (String × V)

module _ {ℓ} {V : Type ℓ} where
  unfoldable pub lookup : String → Dict V → Option V
  lookup k [] = none
  lookup k ((j, v) ∷ d) = if j == k then some v else lookup k d

  -- `m[k] = v`
  unfoldable pub insert : String → V → Dict V → Dict V
  insert k v [] = (k, v) ∷ []
  insert k v ((j, w) ∷ d) = if j == k then (k, v) ∷ d else (j, w) ∷ insert k v d

  -- `delete(m, k)`
  unfoldable pub erase : String → Dict V → Dict V
  erase k [] = []
  erase k ((j, w) ∷ d) = let rest = erase k d in if j == k then rest else (j, w) ∷ rest

  pub lookup-insert :
      (k j : String) (v : V) (d : Dict V)
      → lookup j (insert k v d) ≡ (if k == j then some v else lookup j d)
  unfolding lookup insert
  lookup-insert k j v [] = refl
  lookup-insert k j v ((i, w) ∷ d) =
      ground (arith, eq_iff k j, eq_iff i k, eq_iff i j, lookup-insert k j v d)

  pub lookup-erase :
      (k j : String) (d : Dict V) → lookup j (erase k d) ≡ (if k == j then none else lookup j d)
  unfolding lookup erase
  lookup-erase k j [] = ground arith
  lookup-erase k j ((i, w) ∷ d) =
      ground (arith, eq_iff k j, eq_iff i k, eq_iff i j, lookup-erase k j d)

  pub lookup-insert_self : (k : String) (v : V) (d : Dict V) → lookup k (insert k v d) ≡ some v
  lookup-insert_self k v d = simp (lookup-insert, eq_refl)

  pub lookup-insert_ne :
      (k j : String) (v : V) (d : Dict V) → k ≢ j → lookup j (insert k v d) ≡ lookup j d
  lookup-insert_ne k j v d h = rw (lookup-insert k j v d, test_of_ne h)

  pub lookup-erase_self : (k : String) (d : Dict V) → lookup k (erase k d) ≡ none
  lookup-erase_self k d = simp (lookup-erase, eq_refl)

  pub lookup-erase_ne : (k j : String) (d : Dict V) → k ≢ j → lookup j (erase k d) ≡ lookup j d
  lookup-erase_ne k j d h = rw (lookup-erase k j d, test_of_ne h)

  -- A property of each entry, with its key.
  abbrev pub Entries {κ} : (String → V → Type κ) → Dict V → Type κ
  Entries P [] = Unit
  Entries P ((k, v) ∷ d) = P k v × Entries P d

  module _ {κ} (P : String → V → Type κ) where
    pub Entries-insert :
        (k : String) (v : V) (d : Dict V) → Entries P d → P k v → Entries P (insert k v d)
    unfolding insert
    Entries-insert k v [] h p = (p, tt)
    Entries-insert k v ((j, w) ∷ d) h p = elim (Bool-cases (j == k)) [
      | inl q ↦ rw q ((p, h.1))
      | inr q ↦ rw q ((h.0, Entries-insert k v d h.1 p))
    ]

    pub Entries-erase : (k : String) (d : Dict V) → Entries P d → Entries P (erase k d)
    unfolding erase
    Entries-erase k [] h = tt
    Entries-erase k ((j, w) ∷ d) h = elim (Bool-cases (j == k)) [
      | inl q ↦ rw q (Entries-erase k d h.1)
      | inr q ↦ rw q ((h.0, Entries-erase k d h.1))
    ]

    pub Entries-lookup :
        (k : String) (d : Dict V) (v : V)
        → Entries P d
        → lookup k d ≡ some v
        → (j : String) × (j ≡ k) × P j v
    unfolding lookup
    Entries-lookup k [] v h e = absurd (ground arith)
    Entries-lookup k ((j, w) ∷ d) v h e = elim (Bool-cases (j == k)) [
      | inl q ↦ let same : w ≡ v = ground arith in (j, (eq_iff j k).0 q, rw same at h.0)
      | inr q ↦ Entries-lookup k d v h.1 (rw q at e)
    ]
