-- ===== src/Auth/Http/Limiter/Window.antt =====
-- How many calls of one key the limiter admits within one window.
use identity_platform_go.Base.{
  ℕ, suc, ◌+◌, ◌-◌, ◌*◌, ◌≤◌, ◌≡◌, refl, arith, Bool, true, false, Option, none, some, String, List,
  [], ◌∷◌, if◌then◌else◌, ltb, leb, ◌==◌, All, Bool-cases, Option-cases, inl, inr, eq_iff, subst,
  sym,
}
use identity_platform_go.Base.Dict.{Dict, lookup, insert, lookup-insert}
use identity_platform_go.Auth.Http.Limiter.{evict, allow}

-- A Go map holds a key once.
abbrev pub IsUnique : Dict (ℕ × ℕ) → Type 0
IsUnique [] = Unit
IsUnique ((k, _) ∷ d) = (lookup k d ≡ none) × IsUnique d

abbrev live_at : ℕ → Option (ℕ × ℕ) → Option (ℕ × ℕ)
live_at now none = none
live_at now (some b) = if ltb b.1 now then none else some b

lookup-evict :
    (now : ℕ) (k : String) (d : Dict (ℕ × ℕ))
    → IsUnique d
    → lookup k (evict now d) ≡ live_at now (lookup k d)
unfolding lookup evict
lookup-evict now k [] u = refl
lookup-evict now k ((j, b) ∷ d) u = elim (Bool-cases (j == k)) [
  | inl q ↦
      let none_left : lookup k d ≡ none = subst (λ i. lookup i d ≡ none) ((eq_iff j k).0 q) u.0 in
      ground (arith, lookup-evict now k d u.1)
  | inr q ↦ ground (arith, lookup-evict now k d u.1)
]

evict-IsUnique : (now : ℕ) (d : Dict (ℕ × ℕ)) → IsUnique d → IsUnique (evict now d)
unfolding evict
evict-IsUnique now [] u = tt
evict-IsUnique now ((j, b) ∷ d) u = elim (Bool-cases (ltb b.1 now)) [
  | inl q ↦ rw q (evict-IsUnique now d u.1)
  | inr q ↦ rw q ((ground (arith, lookup-evict now j d u.1), evict-IsUnique now d u.1))
]

insert-IsUnique : (k : String) (v : ℕ × ℕ) (d : Dict (ℕ × ℕ)) → IsUnique d → IsUnique (insert k v d)
unfolding insert lookup
insert-IsUnique k v [] u = (refl, tt)
insert-IsUnique k v ((j, b) ∷ d) u = elim (Bool-cases (j == k)) [
  | inl q ↦ rw q ((subst (λ i. lookup i d ≡ none) ((eq_iff j k).0 q) u.0, u.1))
  | inr q ↦
      rw q
        ((ground (arith, lookup-insert k j v d, eq_iff k j, eq_iff j k), insert-IsUnique k v d u.1))
]

-- What a call does: it starts a window, refuses, or counts.
data Outcome (max window now : ℕ) (k : String) (d : Dict (ℕ × ℕ))
    : Bool × Dict (ℕ × ℕ) → Type 0 where
  starts :
      live_at now (lookup k d) ≡ none
      → Outcome max window now k d (true, insert k (1, now + window) (evict now d))
  refuses : Outcome max window now k d (false, d)
  counts :
      (b : ℕ × ℕ)
      → lookup k d ≡ some b
      → suc b.0 ≤ max
      → Outcome max window now k d (true, insert k (suc b.0, b.1) d)

allow-Outcome :
    (max window now : ℕ) (k : String) (d : Dict (ℕ × ℕ))
    → Outcome max window now k d (allow max window now k d)
unfolding allow
allow-Outcome max window now k d = elim (Option-cases (lookup k d)) [
  | inl q ↦
      subst (Outcome max window now k d) (sym (started (ground arith))) (starts (ground arith))
  | inr (b, q) ↦ elim (Bool-cases (ltb b.1 now)) [
    | inl old ↦
        subst (Outcome max window now k d) (sym (started (ground arith))) (starts (ground arith))
    | inr live ↦ elim (Bool-cases (leb max b.0)) [
      | inl full ↦
          let same : allow max window now k d ≡ (false, d) = ground arith in
          subst (Outcome max window now k d) (sym same) refuses
      | inr room ↦
          let same : allow max window now k d ≡ (true, insert k (suc b.0, b.1) d) = ground arith in
          subst (Outcome max window now k d) (sym same) (counts b q (ground arith))
    ]
  ]
]
  where
    started :
        live_at now (lookup k d) ≡ none
        → allow max window now k d ≡ (true, insert k (1, now + window) (evict now d))
    started q = ground arith

Outcome-IsUnique :
    {max window now : ℕ} {k : String} {d : Dict (ℕ × ℕ)} {r : Bool × Dict (ℕ × ℕ)}
    → Outcome max window now k d r
    → IsUnique d
    → IsUnique r.1
Outcome-IsUnique {max} {window} {now} {k} {d} (starts _) u =
    insert-IsUnique k (1, now + window) (evict now d) (evict-IsUnique now d u)
Outcome-IsUnique refuses u = u
Outcome-IsUnique {k = k} {d} (counts b _ _) u = insert-IsUnique k (suc b.0, b.1) d u

-- How many more calls of a key can be admitted until `end`, by its bucket.
abbrev allowance : ℕ → ℕ → Option (ℕ × ℕ) → ℕ
allowance max end none = max
allowance max end (some b) = if ltb b.1 end then (max - b.0) + max else max - b.0

abbrev counted : Bool → Bool → ℕ
counted true true = 1
counted true false = 0
counted false b = 0

live_allowance :
    (max end now : ℕ) (o : Option (ℕ × ℕ))
    → now ≤ end
    → allowance max end (live_at now o) ≤ allowance max end o
live_allowance max end now none le = ground arith
live_allowance max end now (some b) le = ground arith

starts_allowance :
    (max end now window : ℕ) (o : Option (ℕ × ℕ))
    → 1 ≤ max
    → now ≤ end
    → end ≤ now + window
    → live_at now o ≡ none
    → 1 + allowance max end (some (1, now + window)) ≤ allowance max end o
starts_allowance max end now window none one le in_window q = ground arith
starts_allowance max end now window (some b) one le in_window q = ground arith

counts_allowance :
    (max end : ℕ) (b : ℕ × ℕ)
    → suc b.0 ≤ max
    → 1 + allowance max end (some (suc b.0, b.1)) ≤ allowance max end (some b)
counts_allowance max end b room = ground arith

plus_zero : {m n : ℕ} → m ≤ n → 0 + m ≤ n
plus_zero le = omega (arith, le)

-- One call, of the key `k` or of another, spends no more than it admits of `k`.
spends :
    (max window end now : ℕ) (j k : String) (d : Dict (ℕ × ℕ)) (r : Bool × Dict (ℕ × ℕ))
    → 1 ≤ max
    → now ≤ end
    → end ≤ now + window
    → IsUnique d
    → Outcome max window now j d r
    → counted (j == k) r.0 + allowance max end (lookup k r.1) ≤ allowance max end (lookup k d)
spends max window end now j k d _ one le in_window u (starts q) = elim (Bool-cases (j == k)) [
  | inl same ↦
      rw (lookup-insert j k (1, now + window) (evict now d), same)
        (starts_allowance max end now window (lookup k d) one le in_window
          (subst (λ i. live_at now (lookup i d) ≡ none) ((eq_iff j k).0 same) q))
  | inr other ↦
      rw (lookup-insert j k (1, now + window) (evict now d), other, lookup-evict now k d u)
        (plus_zero (live_allowance max end now (lookup k d) le))
]
spends max window end now j k d _ one le in_window u refuses = elim (Bool-cases (j == k)) [
  | inl same ↦ rw same (ground arith)
  | inr other ↦ rw other (ground arith)
]
spends max window end now j k d _ one le in_window u (counts b q room) =
    elim (Bool-cases (j == k)) [
      | inl same ↦
          let found : lookup k d ≡ some b =
            subst (λ i. lookup i d ≡ some b) ((eq_iff j k).0 same) q in
          rw (lookup-insert j k (suc b.0, b.1) d, same, found) (counts_allowance max end b room)
      | inr other ↦ rw (lookup-insert j k (suc b.0, b.1) d, other) (ground arith)
    ]

-- How many of these calls, each with its time and its key, the limiter admits for a key
pub admissions : ℕ → ℕ → String → List (ℕ × String) → Dict (ℕ × ℕ) → ℕ
admissions max window k [] d = 0
admissions max window k ((t, j) ∷ cs) d =
    let (admitted, d') = allow max window t j d in
    counted (j == k) admitted + admissions max window k cs d'

admissions-allowance :
    (max window a : ℕ) (k : String) (cs : List (ℕ × String)) (d : Dict (ℕ × ℕ))
    → 1 ≤ max
    → All (λ c. (a ≤ c.0) × (c.0 ≤ a + window)) cs
    → IsUnique d
    → admissions max window k cs d ≤ allowance max (a + window) (lookup k d)
unfolding admissions
admissions-allowance max window a k [] d one times u = ground arith
admissions-allowance max window a k ((t, j) ∷ cs) d one times u =
    let o = allow-Outcome max window t j d in
    let step =
      spends max window (a + window) t j k d (allow max window t j d) one (ground (arith, times.0))
        (ground (arith, times.0)) u o in
    let rest =
      admissions-allowance max window a k cs (allow max window t j d).1 one times.1
        (Outcome-IsUnique o u) in
    ground (arith, step, rest)

-- Of any calls, of any keys and in any order, at times that lie within one window's length of each
-- other, the limiter admits at most twice its maximum for each key, whatever buckets it starts from,
-- where the maximum is at least one.
pub admissions_bounded :
    (max window a : ℕ) (k : String) (cs : List (ℕ × String)) (d : Dict (ℕ × ℕ))
    → 1 ≤ max
    → All (λ c. (a ≤ c.0) × (c.0 ≤ a + window)) cs
    → IsUnique d
    → admissions max window k cs d ≤ 2 * max
admissions_bounded max window a k cs d one times u =
    let h = admissions-allowance max window a k cs d one times u in twice (lookup k d) h
  where
    twice :
        (o : Option (ℕ × ℕ))
        → admissions max window k cs d ≤ allowance max (a + window) o
        → admissions max window k cs d ≤ 2 * max
    twice none h = ground arith
    twice (some b) h = ground arith
