-- ===== src/Identity/Accounts.antt =====
-- AuthService of auth_service.go: logins, registrations and the claims of a user.
use identity_platform_go.Base.{
  ℕ, suc, Bool, true, false, Option, none, some, String, Result, ok, err, ◌>>=◌, ◌>>◌, fail_if,
  or_fail, pure, not, ◌||◌, if◌then◌else◌, is_empty, bad_request, unauthorized, forbidden, conflict,
}
use identity_platform_go.Identity.{
  User, is_email_verified, Users, IdentityEvent, Problem, app, hash_failed, account_failed, Deps, I,
  find_by_id, find_by_email, save_user, read_time, draw_text, emit_identity, on_users,
}

-- `domain.LoginResponse`
pub record LoginResponse : Type 0 where
  pub user_id : String
  pub email : String
  pub name : String

-- `domain.RegisterResponse`
pub record SignUpResponse : Type 0 where
  pub user_id : String
  pub email : String
  pub name : String
  pub account_id : String

-- `domain.UserClaims`
pub record Claims : Type 0 where
  pub subject : String
  pub email : String
  pub email_verified : Bool
  pub name : String
  pub updated_at : ℕ

-- `authenticate`: the error comes with the user that was found.
unfoldable pub check_password : Deps → String → String → Users → Result (Problem × Option User) User
unfolding find_by_email
check_password env email password users = elim (find_by_email email users) [
  | err _ ↦ err (app unauthorized, none)
  | ok u ↦
      if not u.active
      then err (app forbidden, some u)
      else if not (env.compare_password u.password_hash password)
      then err (app unauthorized, some u)
      else ok u
]

-- `classifyLoginFailure`
unfoldable pub classify_failure : Problem → Option User → String
classify_failure (app unauthorized) (some _) = "invalid_password"
classify_failure (app unauthorized) none = "user_not_found"
classify_failure (app forbidden) _ = "account_disabled"
classify_failure _ _ = "credential_check_failed"

abbrev pub resolved_id : Option User → String
resolved_id none = ""
resolved_id (some u) = u.id

-- The event of `emitUserAuthenticationFailed`
unfoldable pub failed_event : String → Problem → Option User → IdentityEvent
unfolding classify_failure
failed_event email e u = record {
  event_type = "user_authentication_failed";
  actor_id = email;
  subject_id = resolved_id u;
  allowed = false;
  reason = classify_failure e u;
}

-- An event whose actor is the user
abbrev pub user_event : String → User → IdentityEvent
user_event kind u = record {
  event_type = kind;
  actor_id = u.id;
  subject_id = u.id;
  allowed = true;
  reason = "";
}

-- `Login`. The event of a failed login may itself fail, without a consequence.
unfoldable pub login : Deps → String → String → I LoginResponse
unfolding check_password failed_event emit_identity
login env email password = do
  fail_if (is_empty email || is_empty password) (app bad_request)
  user ← λ s. elim (check_password env email password s.users) [
    | ok u ↦ (ok u, s)
    | err (e, u) ↦ (err e, (emit_identity env (failed_event email e u) s).1)
  ]
  emit_identity env (user_event "user_authenticated" user)
  pure (record { user_id = user.id; email = user.email; name = user.name })

-- `assertEmailAvailable`
unfoldable pub assert_available : String → I (Unit {0})
assert_available email s = elim (find_by_email email s.users) [
  | ok _ ↦ (err (app conflict), s)
  | err _ ↦ (ok tt, s)
]

-- `hasher.Hash`
unfoldable pub hash_secret : Deps → String → I String
hash_secret env password s =
    or_fail (env.hash_password s.hashes password) hash_failed (record s { hashes = suc s.hashes })

-- `buildUser`
unfoldable pub build_user : Deps → String → String → String → I User
unfolding hash_secret
build_user env email password name = do
  hash ← hash_secret env password
  id ← draw_text env
  at ← read_time env
  pure (record {
    id = id;
    email = email;
    password_hash = hash;
    name = name;
    created_at = at;
    updated_at = at;
    active = true;
    email_verified_at = none;
  })

-- `Register`
unfoldable pub sign_up : Deps → String → String → String → I SignUpResponse
unfolding assert_available build_user
sign_up env email password name = do
  fail_if (is_empty email || is_empty password || is_empty name) (app bad_request)
  assert_available email
  user ← build_user env email password name
  on_users (save_user user)
  emit_identity env (user_event "user_registered" user)
  account ← or_fail (env.create_account user.id user.email) account_failed
  pure (record { user_id = user.id; email = user.email; name = user.name; account_id = account })

-- `GetUserClaims`
unfoldable pub user_claims : String → Users → Result Problem Claims
unfolding find_by_id is_email_verified
user_claims id users = elim (find_by_id id users) [
  | err e ↦ err e
  | ok u ↦ ok (record {
    subject = u.id;
    email = u.email;
    email_verified = is_email_verified u;
    name = u.name;
    updated_at = u.updated_at;
  })
]
