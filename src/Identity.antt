-- ===== src/Identity.antt =====
-- services/identity-service/internal: the users, the verification tokens and what the services call.
pub mod Accounts
pub mod Verification
pub mod Login
pub mod SignUp
pub mod Redeemed
pub mod Preferences
mod Tests
use identity_platform_go.Base.{
  ℕ, zero, suc, Bool, true, false, Option, none, some, String, List, [], ◌∷◌, Result, ok, err,
  Action, or_fail, if◌then◌else◌, ErrorCode, missing, conflict, not, ◌==◌, ltb,
}
use identity_platform_go.Base.Dict.{Dict, lookup, insert, erase}

-- `domain.User`
pub record User : Type 0 where
  pub id : String
  pub email : String
  pub password_hash : String
  pub name : String
  pub created_at : ℕ
  pub updated_at : ℕ
  pub active : Bool
  pub email_verified_at : Option ℕ

-- `IsEmailVerified`
unfoldable pub is_email_verified : User → Bool
is_email_verified u = elim u.email_verified_at [ none ↦ false | some _ ↦ true ]

-- `domain.VerificationToken`
pub record VerificationToken : Type 0 where
  pub token_hash : String
  pub user_id : String
  pub expires_at : ℕ
  pub used_at : Option ℕ
  pub created_at : ℕ

-- `UserRepository`: two maps to shared records. A pointer is the index of its record.
pub record Users : Type 0 where
  pub records : List User
  pub by_id : Dict ℕ
  pub by_email : Dict ℕ

-- The audit events, without their resource fields and attributes
pub record IdentityEvent : Type 0 where
  pub event_type : String
  pub actor_id : String
  pub subject_id : String
  pub allowed : Bool
  pub reason : String

-- `domain.VerificationEmail`
pub record VerificationEmail : Type 0 where
  pub to : String
  pub name : String
  pub url : String

-- The errors: those of apperrors by their code, and the failures of the calls
pub data Problem : Type 0 where
  app : ErrorCode → Problem
  hash_failed random_failed audit_failed account_failed template_failed mail_failed : Problem

-- What the services are constructed with. bcrypt, SHA-256 and the mail sender are parameters, as is
-- entitlements-service, which is reached over the network.
pub record Deps : Type 0 where
  pub clock : ℕ → ℕ
  pub random : ℕ → Option String
  pub hash_password : ℕ → String → Option String
  pub compare_password : String → String → Bool
  pub sink : ℕ → Bool
  pub create_account : String → String → Option String
  pub sha256 : String → String
  pub sends : ℕ → Bool
  pub template : String
  pub token_ttl : ℕ

pub record IdentityState : Type 0 where
  pub users : Users
  pub tokens : Dict VerificationToken
  pub readings : ℕ
  pub draws : ℕ
  pub hashes : ℕ
  pub emissions : ℕ
  pub events : List IdentityEvent
  pub mails : ℕ
  pub outbox : List VerificationEmail

abbrev pub I : Type 0 → Type 0
I = Action IdentityState Problem

unfoldable pub record_at : ℕ → List User → Option User
record_at n [] = none
record_at zero (u ∷ us) = some u
record_at (suc n) (u ∷ us) = record_at n us

unfoldable pub set_record : ℕ → User → List User → List User
set_record n v [] = []
set_record zero v (u ∷ us) = v ∷ us
set_record (suc n) v (u ∷ us) = u ∷ set_record n v us

unfoldable pub length : List User → ℕ
length [] = 0
length (_ ∷ us) = suc (length us)

unfoldable pub add_record : User → List User → List User
add_record v [] = v ∷ []
add_record v (u ∷ us) = u ∷ add_record v us

-- The record that a map points to
unfoldable pub pointed : String → Dict ℕ → List User → Option User
unfolding record_at
pointed k d us = elim (lookup k d) [ none ↦ none | some a ↦ record_at a us ]

-- `FindByID` and `FindByEmail`
unfoldable pub find_by_id : String → Users → Result Problem User
unfolding pointed
find_by_id id r = elim (pointed id r.by_id r.records) [ none ↦ err (app missing) | some u ↦ ok u ]

unfoldable pub find_by_email : String → Users → Result Problem User
unfolding pointed
find_by_email email r = elim (pointed email r.by_email r.records) [
  | none ↦ err (app missing)
  | some u ↦ ok u
]

-- `Save`: one new record for both maps
unfoldable pub save_user : User → Users → Result Problem (Unit {0}) × Users
unfolding length add_record
save_user u r = elim (lookup u.email r.by_email) [
  | some _ ↦ (err (app conflict), r)
  | none ↦ (
    ok tt,
    record {
      records = add_record u r.records;
      by_id = insert u.id (length r.records) r.by_id;
      by_email = insert u.email (length r.records) r.by_email;
    },
  )
]

-- `Update`: the maps point to a new record; the old address is given up.
unfoldable pub update_user : User → Users → Result Problem (Unit {0}) × Users
unfolding pointed length add_record
update_user u r = elim (pointed u.id r.by_id r.records) [
  | none ↦ (err (app missing), r)
  | some old ↦
      let kept = if not (old.email == u.email) then erase old.email r.by_email else r.by_email in
      (
        ok tt,
        record {
          records = add_record u r.records;
          by_id = insert u.id (length r.records) r.by_id;
          by_email = insert u.email (length r.records) kept;
        },
      )
]

-- `MarkEmailVerified` writes through the pointer, so that both maps see it.
unfoldable pub mark_email_verified : String → ℕ → Users → Result Problem (Unit {0}) × Users
unfolding record_at set_record
mark_email_verified id at r = elim (lookup id r.by_id) [
  | none ↦ (err (app missing), r)
  | some a ↦ elim (record_at a r.records) [
    | none ↦ (err (app missing), r)
    | some u ↦ (
      ok tt,
      record r {
        records =
            set_record a (record u { email_verified_at = some at; updated_at = at }) r.records;
      },
    )
  ]
]

-- `VerificationTokenRepository`
unfoldable pub save_verification :
    VerificationToken → Dict VerificationToken → Result Problem (Unit {0}) × Dict VerificationToken
save_verification t d = elim (lookup t.token_hash d) [
  | some _ ↦ (err (app conflict), d)
  | none ↦ (ok tt, insert t.token_hash t d)
]

unfoldable pub find_verification :
    String → Dict VerificationToken → Result Problem VerificationToken
find_verification hash d = elim (lookup hash d) [ none ↦ err (app missing) | some t ↦ ok t ]

unfoldable pub mark_used :
    String → ℕ → Dict VerificationToken → Result Problem (Unit {0}) × Dict VerificationToken
mark_used hash at d = elim (lookup hash d) [
  | none ↦ (err (app missing), d)
  | some t ↦ (ok tt, insert hash (record t { used_at = some at }) d)
]

-- `DeleteExpired`: how many are gone, and the rest
unfoldable pub delete_expired : ℕ → Dict VerificationToken → ℕ × Dict VerificationToken
delete_expired before [] = (0, [])
delete_expired before ((k, t) ∷ d) =
    let (n, rest) = delete_expired before d in
    if ltb t.expires_at before then (suc n, rest) else (n, (k, t) ∷ rest)

unfoldable pub read_time : Deps → I ℕ
read_time env s = (ok (env.clock s.readings), record s { readings = suc s.readings })

unfoldable pub draw_text : Deps → I String
draw_text env s = or_fail (env.random s.draws) random_failed (record s { draws = suc s.draws })

unfoldable pub emit_identity : Deps → IdentityEvent → I (Unit {0})
emit_identity env e s =
    if env.sink s.emissions
    then (ok tt, record s { emissions = suc s.emissions; events = e ∷ s.events })
    else (err audit_failed, record s { emissions = suc s.emissions })

-- A call of the user repository that changes it
unfoldable pub on_users : (Users → Result Problem (Unit {0}) × Users) → I (Unit {0})
on_users f s = let (r, u) = f s.users in (r, record s { users = u })

unfoldable pub on_tokens :
    (Dict VerificationToken → Result Problem (Unit {0}) × Dict VerificationToken) → I (Unit {0})
on_tokens f s = let (r, d) = f s.tokens in (r, record s { tokens = d })
