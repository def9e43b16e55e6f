-- ===== src/Identity/Preferences.antt =====
-- UserPreferencesService of user_preferences_service.go, over the memory repository.
use identity_platform_go.Base.{
  ℕ, suc, ◌≡◌, ap, arith, Bool, false, Option, none, some, String, List, ◌∷◌, ok, err, Action,
  ◌>>=◌, ◌>>◌, ◌∙◌, fail_if, pure, gets, if◌then◌else◌, is_empty, ◌==◌, bad_request,
}
use identity_platform_go.Base.Dict.{Dict, lookup, insert, lookup-insert_self}
use identity_platform_go.Identity.{Problem, app, audit_failed}
use identity_platform_go.Identity.Verification.{trim}

-- `domain.UserPreferences`
pub record Preferences : Type 0 where
  pub user_id : String
  pub active_account_id : String
  pub updated_at : ℕ

-- The user_active_account_changed event, by what depends on the request
pub record AccountChanged : Type 0 where
  pub user_id : String
  pub previous_account_id : String
  pub active_account_id : String

pub record PreferenceState : Type 0 where
  pub rows : Dict Preferences
  pub readings : ℕ
  pub emissions : ℕ
  pub changes : List AccountChanged

pub record PreferenceDeps : Type 0 where
  pub clock : ℕ → ℕ
  pub sink : ℕ → Bool

abbrev pub Preferring : Type 0 → Type 0
Preferring = Action PreferenceState Problem

-- `Get` and `SetActiveAccount` of the repository
unfoldable pub get_preferences : String → Dict Preferences → Option Preferences
get_preferences user_id d = lookup user_id d

unfoldable pub put_active_account : String → String → ℕ → Dict Preferences → Dict Preferences
put_active_account user_id account_id now d =
    insert user_id (record { user_id = user_id; active_account_id = account_id; updated_at = now })
      d

abbrev pub stored_account : Option Preferences → String
stored_account none = ""
stored_account (some p) = p.active_account_id

-- `GetActiveAccount`
unfoldable pub get_active_account : String → Preferring String
unfolding get_preferences trim
get_active_account user_id = do
  fail_if (is_empty (trim user_id)) (app bad_request)
  gets (λ s. stored_account (get_preferences user_id s.rows))

-- `emitActiveAccountChanged`
unfoldable pub emit_changed : PreferenceDeps → AccountChanged → Preferring (Unit {0})
emit_changed env e s =
    if env.sink s.emissions
    then (ok tt, record s { emissions = suc s.emissions; changes = e ∷ s.changes })
    else (err audit_failed, record s { emissions = suc s.emissions })

-- `s.repo.SetActiveAccount(ctx, userID, accountID, s.now())`
unfoldable pub save_active_account : PreferenceDeps → String → String → Preferring (Unit {0})
unfolding put_active_account
save_active_account env user_id account_id s = (
  ok tt,
  record s {
    readings = suc s.readings;
    rows = put_active_account user_id account_id (env.clock s.readings) s.rows;
  },
)

-- The event is for a change only.
unfoldable pub announce : PreferenceDeps → AccountChanged → Preferring (Unit {0})
unfolding emit_changed
announce env e =
    if e.previous_account_id == e.active_account_id then pure tt else emit_changed env e

-- `SetActiveAccount`
unfoldable pub set_active_account : PreferenceDeps → String → String → Preferring (Unit {0})
unfolding get_preferences save_active_account announce trim
set_active_account env user_id account_id = do
  fail_if (is_empty (trim user_id)) (app bad_request)
  fail_if (is_empty (trim account_id)) (app bad_request)
  previous ← gets (λ s. stored_account (get_preferences user_id s.rows))
  save_active_account env user_id account_id
  announce env
      (record { user_id = user_id; previous_account_id = previous; active_account_id = account_id })

announce-rows :
    (env : PreferenceDeps) (e : AccountChanged) (s : PreferenceState)
    → (announce env e s).1.rows ≡ s.rows
unfolding announce emit_changed
announce-rows env e s = ground arith

set_active_account-stored :
    (env : PreferenceDeps) (user_id account_id : String) (s : PreferenceState)
    → is_empty (trim user_id) ≡ false
    → is_empty (trim account_id) ≡ false
    → (n : ℕ) × (lookup user_id (set_active_account env user_id account_id s).1.rows
        ≡ some (record { user_id = user_id; active_account_id = account_id; updated_at = n }))
unfolding set_active_account save_active_account put_active_account ◌>>=◌
set_active_account-stored env user_id account_id s p q = (
  env.clock s.readings,
  rw (p, q) (ap (lookup user_id) (announce-rows env _ _) ∙ lookup-insert_self user_id _ s.rows),
)

-- With names that are not blank, the account that was set is the one that is read afterwards, also
-- where the audit event fails and the call with it.
pub get_active_account-set :
    (env : PreferenceDeps) (user_id account_id : String) (s : PreferenceState)
    → is_empty (trim user_id) ≡ false
    → is_empty (trim account_id) ≡ false
    → (get_active_account user_id (set_active_account env user_id account_id s).1).0 ≡ ok account_id
unfolding get_active_account get_preferences ◌>>=◌
get_active_account-set env user_id account_id s p q =
    let (n, stored) = set_active_account-stored env user_id account_id s p q in
    rw p (ap (λ x. ok (stored_account x)) stored)
