-- ===== src/Policy/Evaluation.antt =====
-- Evaluate of policy_service.go against the roles of the subject.
use identity_platform_go.Base.{
  ◌≡◌, ◌≢◌, refl, Bool, true, false, none, some, String, List, [], ◌∷◌, arith, Option-cases,
  Bool-cases, eq_iff, test_of_ne, All, ◌⊎◌, inl, inr, ◌↔◌, ◌==◌, ◌&&◌, sym, ◌∙◌,
}
use identity_platform_go.Base.Dict.{Dict, lookup}
use identity_platform_go.Policy.{
  Permission, Role, Policy, Request, Response, State, Evaluated, grants, satisfied_by, decide, emit,
  evaluate,
}

-- A list of texts, or of permissions, has an element with a property.
pub data Some {ℓ κ} {A : Type ℓ} (P : A → Type κ) : List A → Type (ℓ ⊔ κ) where
  here : {x : A} {xs : List A} → P x → Some P (x ∷ xs)
  there : {x : A} {xs : List A} → Some P xs → Some P (x ∷ xs)

-- A permission is for exactly this resource and this action.
abbrev pub Covers : String → String → Permission → Type 0
Covers resource action p = (p.resource ≡ resource) × (p.action ≡ action)

-- The role has a name, is defined and has such a permission.
pub record Grants (roles : Dict Role) (resource action r : String) : Type 0 where
  pub role : Role
  pub named : r ≢ ""
  pub defined : lookup r roles ≡ some role
  pub covers : Some (Covers resource action) role.permissions

grants-Covers :
    (ps : List Permission) (resource action : String)
    → grants ps resource action ≡ true
    → Some (Covers resource action) ps
unfolding grants
grants-Covers [] resource action h = absurd (ground arith)
grants-Covers (p ∷ ps) resource action h =
    elim (Bool-cases (p.resource == resource && p.action == action)) [
      | inl q ↦ here (ground (arith, eq_iff p.resource resource, eq_iff p.action action))
      | inr q ↦ there (grants-Covers ps resource action (ground arith))
    ]

Covers-grants :
    (ps : List Permission) (resource action : String)
    → Some (Covers resource action) ps
    → grants ps resource action ≡ true
unfolding grants
Covers-grants [] resource action h = elim h [ ]
Covers-grants (p ∷ ps) resource action (here (r, a)) =
    ground (arith, eq_iff p.resource resource, eq_iff p.action action)
Covers-grants (p ∷ ps) resource action (there h) =
    let rest = Covers-grants ps resource action h in ground arith

module _ (roles : Dict Role) (resource action : String) where
  -- One turn of the loop over the roles.
  turn :
      (r : String) (rs : List String)
      → ((role : Role) × (lookup r roles ≡ some role)
          × (grants role.permissions resource action ≡ true)
          × (satisfied_by roles resource action (r ∷ rs) ≡ r))
        ⊎ (((role : Role)
              → lookup r roles ≡ some role
              → grants role.permissions resource action ≡ true
              → ⊥)
            × (satisfied_by roles resource action (r ∷ rs) ≡ satisfied_by roles resource action rs))
  unfolding satisfied_by
  turn r rs = elim (Option-cases (lookup r roles)) [
    | inl q ↦ inr (λ role d g. ground arith, ground arith)
    | inr (role, q) ↦ elim (Bool-cases (grants role.permissions resource action)) [
      | inl g ↦ inl (role, q, g, ground arith)
      | inr g ↦ inr (λ role' d g'. ground arith, ground arith)
    ]
  ]

  satisfied_by-Grants :
      (rs : List String)
      → satisfied_by roles resource action rs ≢ ""
      → Some (Grants roles resource action) rs
  unfolding satisfied_by
  satisfied_by-Grants [] h = absurd (h refl)
  satisfied_by-Grants (r ∷ rs) h = elim (turn r rs) [
    | inl (role, q, g, e) ↦ here (record {
      role = role;
      named = λ p. h (e ∙ p);
      defined = q;
      covers = grants-Covers role.permissions resource action g;
    })
    | inr (_, e) ↦ there (satisfied_by-Grants rs (λ p. h (e ∙ p)))
  ]

  Grants-satisfied_by :
      (rs : List String)
      → All (λ r. r ≢ "") rs
      → Some (Grants roles resource action) rs
      → satisfied_by roles resource action rs ≢ ""
  Grants-satisfied_by [] named h p = elim h [ ]
  Grants-satisfied_by (r ∷ rs) named (here g) p = elim (turn r rs) [
    | inl (_, _, _, e) ↦ g.named (sym e ∙ p)
    | inr (refused, _) ↦
        refused g.role g.defined (Covers-grants g.role.permissions resource action g.covers)
  ]
  Grants-satisfied_by (r ∷ rs) named (there h) p = elim (turn r rs) [
    | inl (_, _, _, e) ↦ named.0 (sym e ∙ p)
    | inr (_, e) ↦ Grants-satisfied_by rs named.1 h (sym e ∙ p)
  ]

-- What an allowed request has: a policy for its subject with a role that grants what it asks for.
pub record Permitted (req : Request) (s : State) : Type 0 where
  pub policy : Policy
  pub found : lookup req.subject_id s.policies ≡ some policy
  pub granted : Some (Grants s.roles req.resource req.action) policy.roles

decide-found :
    (req : Request) (s : State) (p : Policy)
    → lookup req.subject_id s.policies ≡ some p
    → ((decide req s).0.allowed ≡ true)
      ↔ (satisfied_by s.roles req.resource req.action p.roles ≢ "")
unfolding decide
decide-found req s p q = (
  λ h e. ground (arith, eq_iff (satisfied_by s.roles req.resource req.action p.roles) ""),
  λ h. let t = test_of_ne h in ground arith,
)

decide-none :
    (req : Request) (s : State)
    → lookup req.subject_id s.policies ≡ none
    → (decide req s).0.allowed ≡ false
unfolding decide
decide-none req s q = ground arith

-- Whatever is allowed is granted: the subject has a policy, and one of its roles is defined and has
-- a permission for exactly the resource and the action.
pub decide-Permitted :
    (req : Request) (s : State) → (decide req s).0.allowed ≡ true → Permitted req s
decide-Permitted req s h = elim (Option-cases (lookup req.subject_id s.policies)) [
  | inl q ↦ let d = decide-none req s q in absurd (ground arith)
  | inr (p, q) ↦ record {
    policy = p;
    found = q;
    granted =
        satisfied_by-Grants s.roles req.resource req.action p.roles ((decide-found req s p q).0 h);
  }
]

-- Whatever is granted is allowed, where no role of the subject's policy is named by the empty text.
pub Permitted-decide :
    (req : Request) (s : State) (h : Permitted req s)
    → All (λ r. r ≢ "") h.policy.roles
    → (decide req s).0.allowed ≡ true
Permitted-decide req s h named =
    (decide-found req s h.policy h.found).1
      (Grants-satisfied_by s.roles req.resource req.action h.policy.roles named h.granted)

-- An evaluation answers only with the decision, and only after an event with that decision was
-- stored, so that it fails where the sink does (ADR-0019 has this event best-effort); the policies and the roles stay as they were.
pub evaluate-recorded :
    (stored : Bool) (req : Request) (s : State) (resp : Response)
    → (evaluate stored req s).0 ≡ some resp
    → (resp ≡ (decide req s).0)
      × ((event : Evaluated) × ((evaluate stored req s).1.events ≡ event ∷ s.events)
          × (event.subject_id ≡ req.subject_id)
          × (event.allowed ≡ resp.allowed)
          × (event.matched_role ≡ (decide req s).1))
      × ((evaluate stored req s).1.policies ≡ s.policies)
      × ((evaluate stored req s).1.roles ≡ s.roles)
unfolding evaluate emit
evaluate-recorded true req s resp e =
    (ground arith, (_, refl, refl, ground arith, refl), refl, refl)
evaluate-recorded false req s resp e = absurd (ground arith)
