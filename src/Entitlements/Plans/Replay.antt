-- ===== src/Entitlements/Plans/Replay.antt =====
-- Activating a plan again answers the row that is there.
use identity_platform_go.Base.{
  ℕ, suc, ◌≡◌, refl, ap, sym, ◌∙◌, arith, Bool, true, false, inl, inr, Bool-cases, some,
  Option-cases, String, ok, >>=-elim, >>=_ok, pure-ok, fail_if-ok, ◌||◌, not, ltb, is_empty, eq_iff,
}
use identity_platform_go.Base.Dict.{lookup, lookup-insert_self}
use identity_platform_go.Entitlements.Plans.{
  AccountPlan, AccountState, AccountDeps, ActivateRequest, ActivateResult, AccountEvent, new_id,
  put_plan, mirror_plan, add_plan, activate_account_plan, find_plan, emit_created, emit_account,
  activate_plan, read_now, summary_of,
}

new_id-keeps :
    (env : AccountDeps) (s s' : AccountState) (id : String)
    → new_id env s ≡ (ok id, s')
    → s'.account_plans ≡ s.account_plans
unfolding new_id
new_id-keeps env s s' id e = elim (Option-cases (env.random s.draws)) [
  | inl q ↦ absurd (ground arith)
  | inr (x, q) ↦ ground arith
]

mirror_plan-keeps :
    (account plan_id : String) (s s' : AccountState)
    → mirror_plan account plan_id s ≡ (ok tt, s')
    → s'.account_plans ≡ s.account_plans
unfolding mirror_plan
mirror_plan-keeps account plan_id s s' e = elim (Option-cases (summary_of plan_id s.plans)) [
  | inl q ↦ ground arith
  | inr (x, q) ↦ ground arith
]

add_plan-ok :
    (env : AccountDeps) (account plan_id subscription : String) (from : ℕ) (s s' : AccountState)
    (row : AccountPlan) (b : Bool)
    → add_plan env account plan_id subscription from s ≡ (ok (row, b), s')
    → (lookup account s'.account_plans ≡ some row) × (row.plan_id ≡ plan_id)
unfolding add_plan put_plan
add_plan-ok env account plan_id subscription from s s' row b e = >>=-elim _ _ e λ id s₁ e₁ rest₁.
    >>=-elim _ _ rest₁ λ _ s₂ e₂ rest₂. >>=-elim _ _ rest₂ λ _ s₃ e₃ rest₃.
      let (same, last) = pure-ok _ (row, b) s₃ s' rest₃ in
      let kept = mirror_plan-keeps account plan_id s₂ s₃ e₃ in
      let stored = lookup-insert_self account row s₁.account_plans in (ground arith, ground arith)

activate_account_plan-ok :
    (env : AccountDeps) (account plan_id subscription : String) (from : ℕ) (s s' : AccountState)
    (row : AccountPlan) (b : Bool)
    → activate_account_plan env account plan_id subscription from s ≡ (ok (row, b), s')
    → (lookup account s'.account_plans ≡ some row)
      × (row.plan_id ≡ plan_id)
      × (is_empty plan_id ≡ false)
unfolding activate_account_plan
activate_account_plan-ok env account plan_id subscription from s s' row b e =
    elim (Bool-cases (is_empty account || is_empty plan_id || not (ltb 0 from))) [
      | inl q ↦ absurd (ground arith)
      | inr q ↦ elim (Option-cases (lookup account s.account_plans)) [
        | inl p ↦
            let run : add_plan env account plan_id subscription from s ≡ (ok (row, b), s') =
              ground arith in
            let (stored, same) = add_plan-ok env account plan_id subscription from s s' row b run in
            (stored, same, ground arith)
        | inr (r, p) ↦ (ground arith, ground (arith, eq_iff r.plan_id plan_id), ground arith)
      ]
    ]

-- What a successful activation shows
abbrev Activated : (req : ActivateRequest) (s s' : AccountState) (r : ActivateResult) → Type 0
Activated req s s' r =
    (is_empty req.account_id ≡ false)
    × (is_empty req.plan_code ≡ false)
    × (find_plan req.plan_code s.plans ≡ ok r.plan)
    × (lookup req.account_id s'.account_plans ≡ some r.row)
    × (r.row.plan_id ≡ r.plan.id)
    × (is_empty r.plan.id ≡ false)

emit_created-keeps :
    (env : AccountDeps) (b : Bool) (e : AccountEvent) (s s' : AccountState)
    → emit_created env b e s ≡ (ok tt, s')
    → s'.account_plans ≡ s.account_plans
unfolding emit_created emit_account
emit_created-keeps env b e s s' q = ground arith

activate_plan-Activated :
    (env : AccountDeps) (req : ActivateRequest) (s s' : AccountState) (r : ActivateResult)
    → activate_plan env req s ≡ (ok r, s')
    → Activated req s s' r
unfolding activate_plan
activate_plan-Activated env req s s' r e = >>=-elim _ _ e λ _ s₁ e₁ rest₁.
    >>=-elim _ _ rest₁ λ _ s₂ e₂ rest₂. >>=-elim _ _ rest₂ λ plan s₃ e₃ rest₃.
      >>=-elim _ _ rest₃ λ now s₄ e₄ rest₄. >>=-elim _ _ rest₄ λ p s₅ e₅ rest₅.
        >>=-elim _ _ rest₅ λ _ s₆ e₆ rest₆.
          let (account, k₁) = fail_if-ok _ _ s s₁ e₁ in
          let (code, k₂) = fail_if-ok _ _ s₁ s₂ e₂ in
          let (answer, last) = pure-ok _ r s₆ s' rest₆ in
          let found : find_plan req.plan_code s₂.plans ≡ ok plan = ap (λ x. x.0) e₃ in
          let (stored, same, named) =
            activate_account_plan-ok env req.account_id plan.id req.lago_subscription_id now s₄ s₅
              p.0 p.1 e₅ in
          let kept = emit_created-keeps env p.1 _ s₅ s₆ e₆ in
          let plan_kept : plan ≡ r.plan = ap (λ x. x.plan) answer in
          let row_kept : p.0 ≡ r.row = ap (λ x. x.row) answer in
          (
            account,
            code,
            ap (λ x. find_plan req.plan_code x.plans) (sym (k₂ ∙ k₁)) ∙ found ∙ ap ok plan_kept,
            ap (λ x. lookup req.account_id x.account_plans) (sym last)
                ∙ ap (lookup req.account_id) kept
                ∙ stored
                ∙ ap some row_kept,
            ap (λ x. x.plan_id) (sym row_kept) ∙ same ∙ ap (λ x. x.id) plan_kept,
            ap (λ x. is_empty x.id) (sym plan_kept) ∙ named,
          )

activate_account_plan-again :
    (env : AccountDeps) (account plan_id subscription : String) (from : ℕ) (s : AccountState)
    (row : AccountPlan)
    → is_empty account ≡ false
    → is_empty plan_id ≡ false
    → ltb 0 from ≡ true
    → lookup account s.account_plans ≡ some row
    → row.plan_id ≡ plan_id
    → activate_account_plan env account plan_id subscription from s ≡ (ok (row, false), s)
unfolding activate_account_plan
activate_account_plan-again env account plan_id subscription from s row a b c h same =
    ground (arith, eq_iff row.plan_id plan_id)

-- Once a plan was activated for an account, a second call of the same request answers the same row,
-- as not created, and changes nothing but the clock's position: no event is stored again. The plans
-- and the rows are those after the first call, and the clock does not read Go's zero time.
pub activate_plan-again :
    (env : AccountDeps) (req : ActivateRequest) (s s' later : AccountState) (r : ActivateResult)
    → activate_plan env req s ≡ (ok r, s')
    → later.plans ≡ s.plans
    → later.account_plans ≡ s'.account_plans
    → ltb 0 (env.clock later.readings) ≡ true
    → activate_plan env req later ≡ (
      ok (record { row = r.row; plan = r.plan; created = false }),
      record later { readings = suc later.readings },
    )
unfolding activate_plan read_now emit_created
activate_plan-again env req s s' later r e plans rows clock =
    let (account, code, found, stored, same, named) = activate_plan-Activated env req s s' r e in
    let next : AccountState = record later { readings = suc later.readings } in
    let known = ap (find_plan req.plan_code) plans ∙ found in
    let again =
      activate_account_plan-again env req.account_id r.plan.id req.lago_subscription_id
        (env.clock later.readings) next r.row account named clock
        (ap (lookup req.account_id) rows ∙ stored) same in
    >>=_ok _ _ {s' = later} {a = tt} (rw account refl)
    ∙ >>=_ok _ _ {s' = later} {a = tt} (rw code refl)
    ∙ >>=_ok _ _ {s' = later} {a = r.plan} (ap (λ x. (x, later)) known)
    ∙ >>=_ok _ _ {s' = next} {a = env.clock later.readings} refl
    ∙ >>=_ok _ _ again
    ∙ >>=_ok _ _ {s' = next} {a = tt} refl
