-- ===== src/Identity/Tests.antt =====
-- The identity service at concrete inputs: a registration, a login and a verification.
use identity_platform_go.Base.{
  ℕ, suc, ◌≡◌, refl, sym, true, false, Bool, some, none, Option, String, List, [], ◌∷◌, ok, err,
  Result, ◌==◌, eq_refl, unauthorized, ◌>>=◌, Option-cases, inl, inr, arith, eq_iff,
}
use identity_platform_go.Base.Dict.{lookup, insert}
use identity_platform_go.Base.Words.{is_space}
use identity_platform_go.Auth.Http.Messages.{strip_prefix}
use identity_platform_go.Identity.{
  User, Users, Deps, IdentityState, Problem, app, find_by_email, read_time, draw_text, on_users,
  save_user, emit_identity, on_tokens, save_verification, add_record, find_by_id, find_verification,
  is_email_verified, length, mark_email_verified, mark_used, pointed, record_at, set_record,
}
use identity_platform_go.Identity.Accounts.{
  LoginResponse, SignUpResponse, login, sign_up, assert_available, build_user, hash_secret,
}
use identity_platform_go.Identity.Login.{LoggedIn, login-LoggedIn}
use identity_platform_go.Identity.SignUp.{Accepts, sign_up-login}
use identity_platform_go.Identity.Verification.{
  VerifyResponse, trim, trim_left, trim_right, render_url, request_verification, verify_email,
  find_verifiable, complete_redemption, dispatch_mail, fill_slots, find_redeemable, has_slot,
  issue_verification, send_mail,
}
use identity_platform_go.Identity.Redeemed.{Verified, verify_email-once}

abbrev deps : Deps
deps = record {
  clock = λ n. n;
  random = λ n. some "id";
  hash_password = λ n p. some p;
  compare_password = ◌==◌;
  sink = λ n. true;
  create_account = λ id email. some "acc";
  sha256 = λ t. t;
  sends = λ n. true;
  template = "/v?t={{token}}";
  token_ttl = 5;
}

abbrev empty : IdentityState
empty = record {
  users = record { records = []; by_id = []; by_email = [] };
  tokens = [];
  readings = 0;
  draws = 0;
  hashes = 0;
  emissions = 0;
  events = [];
  mails = 0;
  outbox = [];
}

unfoldable signed : IdentityState
signed = (sign_up deps "a@b" "pw" "Ann" empty).1

unfoldable requested : IdentityState
requested = (request_verification deps "a@b" signed).1

unfoldable verified : IdentityState
verified = (verify_email deps " id " requested).1

abbrev account : SignUpResponse
account = record { user_id = "id"; email = "a@b"; name = "Ann"; account_id = "acc" }

abbrev visitor : LoginResponse
visitor = record { user_id = "id"; email = "a@b"; name = "Ann" }

abbrev done : VerifyResponse
done = record { user_id = "id"; email = "a@b"; verified_at = 2 }

signs_up : sign_up deps "a@b" "pw" "Ann" empty ≡ (ok account, signed)
unfolding sign_up ◌>>=◌ find_by_email lookup identity_platform_go.Identity.draw_text
    identity_platform_go.Identity.read_time identity_platform_go.Identity.on_users
    identity_platform_go.Identity.save_user identity_platform_go.Identity.emit_identity signed
signs_up = refl

url : render_url "/v?t={{token}}" "x" ≡ ok "/v?t=x"
unfolding render_url identity_platform_go.Auth.Http.Messages.strip_prefix
url = refl

verifies : verify_email deps " id " requested ≡ (ok done, verified)
unfolding verify_email ◌>>=◌ is_space read_time lookup requested request_verification
    find_verifiable signed sign_up draw_text on_users save_user emit_identity insert on_tokens
    save_verification strip_prefix assert_available build_user hash_secret complete_redemption
    dispatch_mail fill_slots find_redeemable has_slot issue_verification render_url send_mail trim
    trim_left trim_right add_record find_by_email find_by_id find_verification is_email_verified
    length mark_email_verified mark_used pointed record_at set_record verified
verifies = refl

bcrypt : Accepts deps
bcrypt = record { accepts = λ n p h e. ground (arith, eq_refl p) }

login-LoggedIn_example : LoggedIn deps "a@b" "pw" signed (login deps "a@b" "pw" signed).1 visitor
unfolding login ◌>>=◌ lookup signed sign_up identity_platform_go.Identity.draw_text
    identity_platform_go.Identity.read_time identity_platform_go.Identity.on_users
    identity_platform_go.Identity.save_user identity_platform_go.Base.Dict.insert
login-LoggedIn_example =
    login-LoggedIn deps "a@b" "pw" signed (login deps "a@b" "pw" signed).1 visitor refl

sign_up-login_example : (login deps "a@b" "pw" signed).0 ≡ ok visitor
sign_up-login_example =
    sign_up-login deps "a@b" "pw" "Ann" empty signed account bcrypt signs_up refl

verify_email-once_example :
    Verified deps " id " requested verified done
    × ((verify_email deps " id " verified).0 ≡ err (app unauthorized))
    × ((verify_email deps " id " verified).1.users ≡ verified.users)
    × ((verify_email deps " id " verified).1.tokens ≡ verified.tokens)
verify_email-once_example =
    verify_email-once deps " id " requested verified verified done verifies refl
