-- ===== src/Entitlements/Plans.antt =====
-- Personal accounts and plans: CreatePersonalAccount and ActivatePlan of
-- application/account_service.go on the memory repository (account_repo.go and plan_repo.go).
pub mod Replay
use identity_platform_go.Base.{
  ℕ, suc, Bool, true, false, Option, none, some, String, List, [], ◌∷◌, Result, ok, err, Action,
  ◌>>=◌, ◌>>◌, fail_if, or_fail, modify, pure, ◌==◌, ◌||◌, not, ltb, if◌then◌else◌, is_empty,
  ErrorCode, bad_request, missing, conflict, internal,
}
use identity_platform_go.Base.Dict.{Dict, lookup, insert}
use identity_platform_go.Entitlements.Seats.{Seat, owner}

-- `domain.Account`
pub record Account : Type 0 where
  pub id : String
  pub display_name : String
  pub billing_email : String
  pub user_id : String
  pub lago_customer_id : String
  pub created_at : ℕ
  pub updated_at : ℕ

-- `domain.Plan`
pub record Plan : Type 0 where
  pub id : String
  pub code : String
  pub display_name : String
  pub tier : String
  pub seat_allowance : ℕ

-- `domain.AccountPlan`
pub record AccountPlan : Type 0 where
  pub id : String
  pub account_id : String
  pub plan_id : String
  pub valid_from : ℕ
  pub valid_until : Option ℕ
  pub lago_subscription_id : String
  pub created_at : ℕ
  pub updated_at : ℕ

-- `domain.PlanSummary`
pub record PlanSummary : Type 0 where
  pub id : String
  pub code : String
  pub display_name : String

pub data AccountEvent : Type 0 where
  account_created : Account → AccountEvent
  plan_activated : AccountPlan → Plan → AccountEvent

-- `AccountRepository`, with the clock's readings, the drawn IDs and the stored events
pub record AccountState : Type 0 where
  pub accounts : Dict Account
  pub by_user : Dict String
  pub seats : Dict (List Seat)
  pub plans : Dict Plan
  pub account_plans : Dict AccountPlan
  pub active_plan : Dict PlanSummary
  pub readings : ℕ
  pub draws : ℕ
  pub emissions : ℕ
  pub sent : List AccountEvent

pub record AccountDeps : Type 0 where
  pub clock : ℕ → ℕ
  pub random : ℕ → Option String
  pub sink : ℕ → Bool

abbrev pub Accounting : Type 0 → Type 0
Accounting = Action AccountState ErrorCode

unfoldable pub read_now : AccountDeps → Accounting ℕ
read_now env s = (ok (env.clock s.readings), record s { readings = suc s.readings })

-- `newID`
unfoldable pub new_id : AccountDeps → Accounting String
new_id env s = or_fail (env.random s.draws) internal (record s { draws = suc s.draws })

unfoldable pub emit_account : AccountDeps → AccountEvent → Accounting (Unit {0})
emit_account env e s =
    if env.sink s.emissions
    then (ok tt, record s { emissions = suc s.emissions; sent = e ∷ s.sent })
    else (err internal, record s { emissions = suc s.emissions })

-- `FindByUserID`
unfoldable pub find_by_user : String → AccountState → Option Account
find_by_user user s = elim (lookup user s.by_user) [ none ↦ none | some id ↦ lookup id s.accounts ]

-- The three writes of `UpsertPersonalAccount`
unfoldable pub put_account : Account → Seat → Accounting (Unit {0})
put_account a seat = modify (λ s. record s {
  accounts = insert a.id a s.accounts;
  by_user = insert a.user_id a.id s.by_user;
  seats = insert a.id (seat ∷ []) s.seats;
})

-- The account that `UpsertPersonalAccount` creates
unfoldable pub add_personal : AccountDeps → String → String → Accounting Account
unfolding put_account
add_personal env user email = do
  now ← read_now env
  account_id ← new_id env
  seat_id ← new_id env
  let account : Account = record {
    id = account_id;
    display_name = email;
    billing_email = email;
    user_id = user;
    lago_customer_id = "";
    created_at = now;
    updated_at = now;
  }
  put_account account (record {
    id = seat_id;
    account_id = account_id;
    user_id = user;
    role = owner;
    created_at = now;
    updated_at = now;
  })
  pure account

-- `UpsertPersonalAccount`
unfoldable pub upsert_personal : AccountDeps → String → String → Accounting Account
unfolding find_by_user add_personal
upsert_personal env user email s =
    if is_empty user || is_empty email
    then (err bad_request, s)
    else elim (find_by_user user s) [ some a ↦ (ok a, s) | none ↦ add_personal env user email s ]

-- The creation in `CreatePersonalAccount`
unfoldable pub create_new : AccountDeps → String → String → Accounting (Account × Bool)
unfolding upsert_personal emit_account
create_new env user email = do
  account ← upsert_personal env user email
  emit_account env (account_created account)
  pure (account, true)

-- `CreatePersonalAccount`, with `validatePersonalAccountInput`
unfoldable pub create_personal : AccountDeps → String → String → Accounting (Account × Bool)
unfolding create_new
create_personal env user email s =
    if is_empty user || is_empty email then (err bad_request, s) else elim (find_by_user user s) [
      | some a ↦ (ok (a, false), s)
      | none ↦ create_new env user email s
    ]

-- `FindPlanByCode`
unfoldable pub find_plan : String → Dict Plan → Result ErrorCode Plan
find_plan code d =
    if is_empty code
    then err bad_request
    else elim (lookup code d) [ none ↦ err missing | some p ↦ ok p ]

-- The loop of `mirrorActivePlanLocked`
unfoldable pub summary_of : String → Dict Plan → Option PlanSummary
summary_of plan_id [] = none
summary_of plan_id ((k, p) ∷ d) =
    let rest = summary_of plan_id d in
    if p.id == plan_id
    then some (record { id = p.id; code = p.code; display_name = p.display_name })
    else rest

-- `mirrorActivePlanLocked`
unfoldable pub mirror_plan : String → String → Accounting (Unit {0})
unfolding summary_of
mirror_plan account plan_id s = elim (summary_of plan_id s.plans) [
  | none ↦ (ok tt, s)
  | some p ↦ (ok tt, record s { active_plan = insert account p s.active_plan })
]

unfoldable pub put_plan : AccountPlan → Accounting (Unit {0})
put_plan row = modify (λ s. record s { account_plans = insert row.account_id row s.account_plans })

-- The row that `ActivateAccountPlan` adds
unfoldable pub add_plan :
    AccountDeps → String → String → String → ℕ → Accounting (AccountPlan × Bool)
unfolding new_id put_plan mirror_plan
add_plan env account plan_id subscription from = do
  id ← new_id env
  let row : AccountPlan = record {
    id = id;
    account_id = account;
    plan_id = plan_id;
    valid_from = from;
    valid_until = none;
    lago_subscription_id = subscription;
    created_at = from;
    updated_at = from;
  }
  put_plan row
  mirror_plan account plan_id
  pure (row, true)

-- `ActivateAccountPlan`, with `validateActivateInput`; zero is Go's zero time.
unfoldable pub activate_account_plan :
    AccountDeps → String → String → String → ℕ → Accounting (AccountPlan × Bool)
unfolding add_plan
activate_account_plan env account plan_id subscription from s =
    if is_empty account || is_empty plan_id || not (ltb 0 from)
    then (err bad_request, s)
    else elim (lookup account s.account_plans) [
      | some row ↦ (if not (row.plan_id == plan_id) then err conflict else ok (row, false), s)
      | none ↦ add_plan env account plan_id subscription from s
    ]

-- `ActivatePlanRequest` and `ActivatePlanResult`
pub record ActivateRequest : Type 0 where
  pub account_id : String
  pub plan_code : String
  pub lago_subscription_id : String

pub record ActivateResult : Type 0 where
  pub row : AccountPlan
  pub plan : Plan
  pub created : Bool

-- The event is for a created row only.
unfoldable pub emit_created : AccountDeps → Bool → AccountEvent → Accounting (Unit {0})
unfolding emit_account
emit_created env created e = if created then emit_account env e else pure tt

-- `ActivatePlan`, with `validateActivatePlanInput`
unfoldable pub activate_plan : AccountDeps → ActivateRequest → Accounting ActivateResult
unfolding find_plan activate_account_plan emit_created read_now
activate_plan env req = do
  fail_if (is_empty req.account_id) bad_request
  fail_if (is_empty req.plan_code) bad_request
  plan ← λ s. (find_plan req.plan_code s.plans, s)
  now ← read_now env
  (row, created) ← activate_account_plan env req.account_id plan.id req.lago_subscription_id now
  emit_created env created (plan_activated row plan)
  pure (record { row = row; plan = plan; created = created })
