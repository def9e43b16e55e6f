-- ===== src/Policy/Permissions.antt =====
-- The permission list of a subject (GetSubjectPermissions) against its roles and against Evaluate.
use identity_platform_go.Base.{
  ◌≡◌, refl, true, false, none, some, String, List, [], ◌∷◌, arith, Option-cases, Bool-cases,
  eq_iff, ◌⊎◌, inl, inr, contains, ◌==◌, sym, ◌∙◌, ap, ◌||◌, ◌++◌, ◌↔◌, subst,
}
use identity_platform_go.Base.Dict.{Dict, lookup}
use identity_platform_go.Policy.{
  Permission, Role, Policy, State, Request, key, add_keys, collect, subject_permissions, decide,
}
use identity_platform_go.Policy.Evaluation.{
  Some, here, there, Grants, Covers, Permitted, decide-Permitted,
}

-- No text stands twice.
abbrev pub Distinct : List String → Type 0
Distinct [] = Unit
Distinct (x ∷ xs) = (contains xs x ≡ false) × Distinct xs

contains-snoc :
    (xs : List String) (y x : String) → contains (xs ++ (y ∷ [])) x ≡ (contains xs x || y == x)
unfolding contains
contains-snoc [] y x = ground arith
contains-snoc (z ∷ xs) y x = let rest = contains-snoc xs y x in ground arith

Distinct-snoc :
    (xs : List String) (y : String)
    → contains xs y ≡ false
    → Distinct xs
    → Distinct (xs ++ (y ∷ []))
unfolding contains
Distinct-snoc [] y h d = (refl, tt)
Distinct-snoc (x ∷ xs) y h d = (
  ground (arith, contains-snoc xs y x, eq_iff x y, eq_iff y x, d.0),
  Distinct-snoc xs y (ground arith) d.1,
)

-- One turn of the inner loop.
add_keys-step :
    (p : Permission) (ps : List Permission) (seen : List String)
    → ((contains seen (key p) ≡ true) × (add_keys (p ∷ ps) seen ≡ add_keys ps seen))
      ⊎ ((contains seen (key p) ≡ false)
          × (add_keys (p ∷ ps) seen ≡ add_keys ps (seen ++ (key p ∷ []))))
unfolding add_keys
add_keys-step p ps seen = elim (Bool-cases (contains seen (key p))) [
  | inl q ↦ inl (q, ground arith)
  | inr q ↦ inr (q, ground arith)
]

-- One turn of the outer loop.
collect-step :
    (roles : Dict Role) (r : String) (rs seen : List String)
    → ((lookup r roles ≡ none) × (collect roles (r ∷ rs) seen ≡ collect roles rs seen))
      ⊎ ((role : Role) × (lookup r roles ≡ some role)
          × (collect roles (r ∷ rs) seen ≡ collect roles rs (add_keys role.permissions seen)))
unfolding collect
collect-step roles r rs seen = elim (Option-cases (lookup r roles)) [
  | inl q ↦ inl (q, ground arith)
  | inr (role, q) ↦ inr (role, q, ground arith)
]

add_keys-Distinct :
    (ps : List Permission) (seen : List String) → Distinct seen → Distinct (add_keys ps seen)
unfolding add_keys
add_keys-Distinct [] seen h = h
add_keys-Distinct (p ∷ ps) seen h = elim (add_keys-step p ps seen) [
  | inl (_, e) ↦ subst Distinct (sym e) (add_keys-Distinct ps seen h)
  | inr (q, e) ↦
      subst Distinct (sym e)
        (add_keys-Distinct ps (seen ++ (key p ∷ [])) (Distinct-snoc seen (key p) q h))
]

collect-Distinct :
    (roles : Dict Role) (rs seen : List String) → Distinct seen → Distinct (collect roles rs seen)
unfolding collect
collect-Distinct roles [] seen h = h
collect-Distinct roles (r ∷ rs) seen h = elim (collect-step roles r rs seen) [
  | inl (_, e) ↦ subst Distinct (sym e) (collect-Distinct roles rs seen h)
  | inr (role, _, e) ↦ subst Distinct (sym e) (
      collect-Distinct roles rs (add_keys role.permissions seen)
        (add_keys-Distinct role.permissions seen h))
]

-- A key is listed by a role.
pub record Lists (roles : Dict Role) (k r : String) : Type 0 where
  pub role : Role
  pub defined : lookup r roles ≡ some role
  pub listed : Some (λ p. key p ≡ k) role.permissions

add_keys-contains :
    (ps : List Permission) (seen : List String) (k : String)
    → (contains seen k ≡ true) ⊎ Some (λ p. key p ≡ k) ps
    → contains (add_keys ps seen) k ≡ true
unfolding add_keys
add_keys-contains [] seen k (inl h) = h
add_keys-contains [] seen k (inr h) = elim h [ ]
add_keys-contains (p ∷ ps) seen k h = elim (add_keys-step p ps seen) [
  | inl (q, e) ↦
      ap (λ l. contains l k) e
      ∙ add_keys-contains ps seen k (elim h [
        | inl g ↦ inl g
        | inr (here same) ↦ inl (subst (λ x. contains seen x ≡ true) same q)
        | inr (there g) ↦ inr g
      ])
  | inr (q, e) ↦
      ap (λ l. contains l k) e
      ∙ add_keys-contains ps (seen ++ (key p ∷ [])) k (elim h [
        | inl g ↦ inl (ground (arith, contains-snoc seen (key p) k))
        | inr (here same) ↦ inl (ground (arith, contains-snoc seen (key p) k, eq_iff (key p) k))
        | inr (there g) ↦ inr g
      ])
]

add_keys-listed :
    (ps : List Permission) (seen : List String) (k : String)
    → contains (add_keys ps seen) k ≡ true
    → (contains seen k ≡ true) ⊎ Some (λ p. key p ≡ k) ps
unfolding add_keys
add_keys-listed [] seen k h = inl h
add_keys-listed (p ∷ ps) seen k h = elim (add_keys-step p ps seen) [
  | inl (q, e) ↦ elim (add_keys-listed ps seen k (ap (λ l. contains l k) (sym e) ∙ h)) [
    | inl g ↦ inl g
    | inr g ↦ inr (there g)
  ]
  | inr (q, e) ↦
      elim (add_keys-listed ps (seen ++ (key p ∷ [])) k (ap (λ l. contains l k) (sym e) ∙ h)) [
        | inr g ↦ inr (there g)
        | inl g ↦ elim (Bool-cases (key p == k)) [
          | inl same ↦ inr (here ((eq_iff (key p) k).0 same))
          | inr other ↦ inl (ground (arith, contains-snoc seen (key p) k))
        ]
      ]
]

collect-contains :
    (roles : Dict Role) (rs seen : List String) (k : String)
    → (contains seen k ≡ true) ⊎ Some (Lists roles k) rs
    → contains (collect roles rs seen) k ≡ true
unfolding collect
collect-contains roles [] seen k (inl h) = h
collect-contains roles [] seen k (inr h) = elim h [ ]
collect-contains roles (r ∷ rs) seen k h = elim (collect-step roles r rs seen) [
  | inl (q, e) ↦
      ap (λ l. contains l k) e
      ∙ collect-contains roles rs seen k (elim h [
        | inl g ↦ inl g
        | inr (here g) ↦ let d : lookup r roles ≡ some g.role = g.defined in absurd (ground arith)
        | inr (there g) ↦ inr g
      ])
  | inr (role, q, e) ↦
      ap (λ l. contains l k) e
      ∙ collect-contains roles rs (add_keys role.permissions seen) k (elim h [
        | inl g ↦ inl (add_keys-contains role.permissions seen k (inl g))
        | inr (here g) ↦
            let d : lookup r roles ≡ some g.role = g.defined in
            let same : g.role ≡ role = ground arith in
            inl (
              add_keys-contains role.permissions seen k
                (inr (subst (λ x. Some (λ p. key p ≡ k) x.permissions) same g.listed)))
        | inr (there g) ↦ inr g
      ])
]

collect-listed :
    (roles : Dict Role) (rs seen : List String) (k : String)
    → contains (collect roles rs seen) k ≡ true
    → (contains seen k ≡ true) ⊎ Some (Lists roles k) rs
unfolding collect
collect-listed roles [] seen k h = inl h
collect-listed roles (r ∷ rs) seen k h = elim (collect-step roles r rs seen) [
  | inl (q, e) ↦ elim (collect-listed roles rs seen k (ap (λ l. contains l k) (sym e) ∙ h)) [
    | inl g ↦ inl g
    | inr g ↦ inr (there g)
  ]
  | inr (role, q, e) ↦
      elim (collect-listed roles rs (add_keys role.permissions seen) k
        (ap (λ l. contains l k) (sym e) ∙ h)) [
          | inr g ↦ inr (there g)
          | inl g ↦ elim (add_keys-listed role.permissions seen k g) [
            | inl a ↦ inl a
            | inr a ↦ inr (here (record { role = role; defined = q; listed = a }))
          ]
        ]
]

-- The permissions reported for a subject with a policy have no key twice, and have exactly the keys
-- of the permissions of its defined roles.
pub subject_permissions_lem :
    (subject : String) (s : State) (p : Policy) (k : String)
    → lookup subject s.policies ≡ some p
    → Distinct (subject_permissions subject s).permissions
      × ((contains (subject_permissions subject s).permissions k ≡ true)
          ↔ Some (Lists s.roles k) p.roles)
unfolding subject_permissions contains
subject_permissions_lem subject s p k q =
    let same : (subject_permissions subject s).permissions ≡ collect s.roles p.roles [] =
      ground arith in
    (
      subst Distinct (sym same) (collect-Distinct s.roles p.roles [] tt),
      (
        λ h. elim (collect-listed s.roles p.roles [] k (ap (λ l. contains l k) (sym same) ∙ h)) [
          | inl g ↦ absurd (ground arith)
          | inr g ↦ g
        ],
        λ h. ap (λ l. contains l k) same ∙ collect-contains s.roles p.roles [] k (inr h),
      ),
    )

Grants-Lists :
    (roles : Dict Role) (resource action : String) (rs : List String)
    → Some (Grants roles resource action) rs
    → Some (Lists roles (key (record { resource = resource; action = action }))) rs
unfolding key
Grants-Lists roles resource action [] h = elim h [ ]
Grants-Lists roles resource action (r ∷ rs) (here g) =
    here
      (record { role = g.role; defined = g.defined; listed = covered g.role.permissions g.covers })
  where
    covered :
        (ps : List Permission)
        → Some (Covers resource action) ps
        → Some (λ p. key p ≡ key (record { resource = resource; action = action })) ps
    covered [] h = elim h [ ]
    covered (p ∷ ps) (here (a, b)) = here (rw (a, b) refl)
    covered (p ∷ ps) (there h) = there (covered ps h)
Grants-Lists roles resource action (r ∷ rs) (there h) =
    there (Grants-Lists roles resource action rs h)

-- Whatever an evaluation allows stands in the permissions reported for the subject, so that a token
-- that carries them agrees.
pub allowed-listed :
    (req : Request) (s : State)
    → (decide req s).0.allowed ≡ true
    → contains
        (subject_permissions req.subject_id s).permissions
        (key (record { resource = req.resource; action = req.action }))
      ≡ true
allowed-listed req s h =
    let p : Permitted req s = decide-Permitted req s h in
    let k = key (record { resource = req.resource; action = req.action }) in
    (subject_permissions_lem req.subject_id s p.policy k p.found).1.1
      (Grants-Lists s.roles req.resource req.action p.policy.roles p.granted)
