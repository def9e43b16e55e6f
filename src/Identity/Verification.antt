-- ===== src/Identity/Verification.antt =====
-- EmailVerificationService of email_verification_service.go.
use Prim.Native.Char.{code}
use Prim.Native.String
use identity_platform_go.Base.{
  ℕ, zero, suc, ◌+◌, Bool, true, false, Option, none, some, String, ◌∷◌, Result, ok, err, ◌>>=◌,
  ◌>>◌, lift, fail_if, pure, not, ◌&&◌, if◌then◌else◌, is_empty, ltb, bad_request, unauthorized,
}
use identity_platform_go.Base.Dict.{Dict}
use identity_platform_go.Base.Words.{is_space}
use identity_platform_go.Auth.Http.Messages.{strip_prefix}
use identity_platform_go.Identity.{
  User, is_email_verified, VerificationToken, VerificationEmail, Problem, app, template_failed,
  mail_failed, Deps, IdentityState, I, find_by_id, find_by_email, mark_email_verified,
  save_verification, find_verification, mark_used, read_time, draw_text, on_users, on_tokens,
}

-- `domain.VerifyEmailResponse`
pub record VerifyResponse : Type 0 where
  pub user_id : String
  pub email : String
  pub verified_at : ℕ

-- `strings.TrimSpace`
unfoldable pub trim_left : String → String
trim_left String.[] = ""
trim_left (String.◌∷◌ c s) =
    let rest = trim_left s in if is_space (code c) then rest else String.◌∷◌ c s

unfoldable pub trim_right : String → String
trim_right String.[] = ""
trim_right (String.◌∷◌ c s) =
    let rest = trim_right s in if is_empty rest && is_space (code c) then "" else String.◌∷◌ c rest

unfoldable pub trim : String → String
unfolding trim_left trim_right
trim s = trim_right (trim_left s)

-- `strings.Contains(s, "{{token}}")`
unfoldable pub has_slot : String → Bool
has_slot String.[] = false
has_slot (String.◌∷◌ c s) =
    let rest = has_slot s in
    elim (strip_prefix "{{token}}" (String.◌∷◌ c s)) [ some _ ↦ true | none ↦ rest ]

-- `strings.ReplaceAll(s, "{{token}}", token)`, behind so many characters of a placeholder
unfoldable pub fill_slots : ℕ → String → String → String
fill_slots n token String.[] = ""
fill_slots (suc n) token (String.◌∷◌ c s) = fill_slots n token s
fill_slots zero token (String.◌∷◌ c s) =
    let inside = fill_slots 8 token s in
    let rest = fill_slots zero token s in
    elim (strip_prefix "{{token}}" (String.◌∷◌ c s)) [
      | some _ ↦ Prim.Native.String.◌++◌ token inside
      | none ↦ String.◌∷◌ c rest
    ]

-- `renderVerificationURL`
unfoldable pub render_url : String → String → Result Problem String
unfolding has_slot fill_slots
render_url template token =
    if is_empty template
    then ok token
    else if not (has_slot template)
    then err template_failed
    else ok (fill_slots 0 token template)

-- `findVerifiableUser`: none where the request is dropped silently
unfoldable pub find_verifiable : String → IdentityState → Option User
unfolding find_by_email is_email_verified
find_verifiable email s = elim (find_by_email email s.users) [
  | err _ ↦ none
  | ok u ↦ if is_email_verified u then none else some u
]

-- `issueToken`, with `newToken`: the token in plain
unfoldable pub issue_verification : Deps → String → I String
issue_verification env user_id = do
  plain ← draw_text env
  at ← read_time env
  on_tokens (
      save_verification (record {
        token_hash = env.sha256 plain;
        user_id = user_id;
        expires_at = at + env.token_ttl;
        used_at = none;
        created_at = at;
      }))
  pure plain

-- `sender.SendVerificationEmail`
unfoldable pub send_mail : Deps → VerificationEmail → I (Unit {0})
send_mail env m s =
    if env.sends s.mails
    then (ok tt, record s { mails = suc s.mails; outbox = m ∷ s.outbox })
    else (err mail_failed, record s { mails = suc s.mails })

-- `dispatchVerificationEmail`
unfoldable pub dispatch_mail : Deps → User → String → I (Unit {0})
unfolding render_url send_mail
dispatch_mail env user plain = do
  url ← lift (render_url env.template plain)
  send_mail env (record { to = user.email; name = user.name; url = url })

-- `RequestVerification`
unfoldable pub request_verification : Deps → String → I (Unit {0})
unfolding trim issue_verification dispatch_mail
request_verification env email = do
  fail_if (is_empty (trim email)) (app bad_request)
  λ s. elim (find_verifiable email s) [
    | none ↦ (ok tt, s)
    | some user ↦ (do plain ← issue_verification env user.id; dispatch_mail env user plain) s
  ]

-- `findRedeemableToken`
unfoldable pub find_redeemable :
    String → ℕ → Dict VerificationToken → Result Problem VerificationToken
unfolding find_verification
find_redeemable hash at d = elim (find_verification hash d) [
  | err _ ↦ err (app unauthorized)
  | ok t ↦ elim t.used_at [
    | some _ ↦ err (app unauthorized)
    | none ↦ if not (ltb at t.expires_at) then err (app unauthorized) else ok t
  ]
]

-- `completeRedemption`
unfoldable pub complete_redemption : VerificationToken → String → ℕ → I VerifyResponse
unfolding find_by_id
complete_redemption t hash at = do
  on_users (mark_email_verified t.user_id at)
  on_tokens (mark_used hash at)
  user ← λ s. (find_by_id t.user_id s.users, s)
  pure (record { user_id = user.id; email = user.email; verified_at = at })

-- `VerifyEmail`
unfoldable pub verify_email : Deps → String → I VerifyResponse
unfolding trim find_redeemable complete_redemption
verify_email env raw = do
  fail_if (is_empty (trim raw)) (app bad_request)
  at ← read_time env
  t ← λ s. (find_redeemable (env.sha256 (trim raw)) at s.tokens, s)
  complete_redemption t (env.sha256 (trim raw)) at
