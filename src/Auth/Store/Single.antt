-- ===== src/Auth/Store/Single.antt =====
-- The contract that domain.AuthorizationCodeRepository and its siblings state in their comments,
-- `Consume` is one atomic read-and-delete, as an interface. A client of the interface sees the abstract map `find` alone.
use identity_platform_go.Base.{
  ℕ, ◌+◌, ◌≤◌, ◌≡◌, Bool, false, ◌⊎◌, inl, inr, Option, none, some, String, if◌then◌else◌, Result,
  ok, err, ◌==◌, List, [], ◌∷◌, arith, eq_iff, Result-cases,
}
use identity_platform_go.Auth.Domain.{Error}

pub record SingleUse (S V : Type 0) : Type 0 where
  pub key : V → String
  pub find : String → S → Option V
  pub expired : V → ℕ → Bool
  pub save : V → S → S
  pub consume : ℕ → String → S → Result Error V × S
  pub find-save :
      (v : V) (s : S) (k : String) → find k (save v s) ≡ (if key v == k then some v else find k s)
  pub consume-ok :
      (now : ℕ) (k : String) (s : S) (v : V)
      → (consume now k s).0 ≡ ok v
      → (find k s ≡ some v) × (expired v now ≡ false) × (find k (consume now k s).1 ≡ none)
  pub consume-live :
      (now : ℕ) (k : String) (s : S) (v : V)
      → find k s ≡ some v
      → expired v now ≡ false
      → (consume now k s).0 ≡ ok v
  pub consume-keeps :
      (now : ℕ) (j : String) (s : S) (k : String)
      → (find k (consume now j s).1 ≡ find k s) ⊎ (find k (consume now j s).1 ≡ none)

-- Calls as they reach the mutex, from any number of callers.
pub data Call (V : Type 0) : Type 0 where
  saves : V → Call V
  consumes : ℕ → String → Call V

abbrev pub held : {V : Type 0} → Option V → ℕ
held none = 0
held (some _) = 1

abbrev pub won : {V : Type 0} → Result Error V → ℕ
won (ok _) = 1
won (err _) = 0

module _ {S V : Type 0} (m : SingleUse S V) (k : String) where
  open m use {key, find, save, consume, find-save, consume-ok, consume-keeps}

  -- How many of the calls redeemed `k`, and how many stored a record under `k`.
  unfoldable pub wins : List (Call V) → S → ℕ
  wins [] s = 0
  wins (saves v ∷ cs) s = wins cs (save v s)
  wins (consumes now j ∷ cs) s =
      (if j == k then won (consume now j s).0 else 0) + wins cs (consume now j s).1

  unfoldable pub stores : List (Call V) → ℕ
  stores [] = 0
  stores (saves v ∷ cs) = (if key v == k then 1 else 0) + stores cs
  stores (consumes _ _ ∷ cs) = stores cs

  held-save :
      (v : V) (s : S) → held (find k (save v s)) ≤ (if key v == k then 1 else 0) + held (find k s)
  held-save v s = ground (arith, find-save v s k)

  held-consume :
      (now : ℕ) (j : String) (s : S)
      → (if j == k then won (consume now j s).0 else 0) + held (find k (consume now j s).1)
        ≤ held (find k s)
  held-consume now j s = elim (Result-cases (consume now j s).0) [
    | inl (v, e) ↦ ground (arith, consume-keeps now j s k, consume-ok now j s v e, eq_iff j k)
    | inr (_, e) ↦ ground (arith, consume-keeps now j s k)
  ]

  -- Whatever the order of the calls, a record is redeemed at most once for each time it was stored.
  pub wins-le-stores : (cs : List (Call V)) (s : S) → wins cs s ≤ stores cs + held (find k s)
  unfolding wins stores
  wins-le-stores [] s = omega arith
  wins-le-stores (saves v ∷ cs) s = omega (arith, wins-le-stores cs (save v s), held-save v s)
  wins-le-stores (consumes now j ∷ cs) s =
      omega (arith, wins-le-stores cs (consume now j s).1, held-consume now j s)
