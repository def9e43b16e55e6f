-- ===== src/Identity/Redeemed.antt =====
-- An address is verified only by a live token, and the token works once.
use identity_platform_go.Base.{
  ℕ, zero, suc, ◌≡◌, refl, arith, ap, sym, ◌∙◌, true, false, inl, inr, none, some, Option-cases,
  String, List, [], ◌∷◌, ok, err, ◌>>=◌, >>=-elim, pure-ok, fail_if-ok, is_empty, ltb, unauthorized,
}
use identity_platform_go.Base.Dict.{Dict, lookup, lookup-insert_self}
use identity_platform_go.Identity.{
  User, Users, app, Deps, IdentityState, VerificationToken, find_by_id, record_at, set_record,
  mark_email_verified, find_verification, mark_used, on_users, on_tokens, read_time, pointed,
}
use identity_platform_go.Identity.Verification.{
  VerifyResponse, trim, find_redeemable, complete_redemption, verify_email,
}

-- What a redeemed token was, and what is known afterwards
pub record Verified (env : Deps) (raw : String) (s s' : IdentityState) (r : VerifyResponse)
    : Type 0 where
  pub token : VerificationToken
  pub stored : lookup (env.sha256 (trim raw)) s.tokens ≡ some token
  pub unused : token.used_at ≡ none
  pub live : ltb r.verified_at token.expires_at ≡ true
  pub user : User
  pub found : find_by_id token.user_id s'.users ≡ ok user
  pub marked : user.email_verified_at ≡ some r.verified_at
  pub burnt :
      lookup (env.sha256 (trim raw)) s'.tokens
      ≡ some (record token { used_at = some r.verified_at })

find_redeemable-ok :
    (hash : String) (at : ℕ) (d : Dict VerificationToken) (t : VerificationToken)
    → find_redeemable hash at d ≡ ok t
    → (lookup hash d ≡ some t) × (t.used_at ≡ none) × (ltb at t.expires_at ≡ true)
unfolding find_redeemable find_verification
find_redeemable-ok hash at d t e = elim (Option-cases (lookup hash d)) [
  | inl q ↦ absurd (ground arith)
  | inr (v, q) ↦ elim (Option-cases v.used_at) [
    | inl p ↦ ground arith
    | inr (x, p) ↦ absurd (ground arith)
  ]
]

find_redeemable-used :
    (hash : String) (at n : ℕ) (d : Dict VerificationToken) (t : VerificationToken)
    → lookup hash d ≡ some t
    → t.used_at ≡ some n
    → find_redeemable hash at d ≡ err (app unauthorized)
unfolding find_redeemable find_verification
find_redeemable-used hash at n d t e h = ground arith

record_at-set_record :
    (a : ℕ) (u v : User) (us : List User)
    → record_at a us ≡ some u
    → record_at a (set_record a v us) ≡ some v
unfolding record_at set_record
record_at-set_record a u v [] e = absurd (ground arith)
record_at-set_record zero u v (w ∷ us) e = refl
record_at-set_record (suc a) u v (w ∷ us) e = record_at-set_record a u v us e

mark_email_verified-marked :
    (id : String) (at : ℕ) (r : Users) (u : User)
    → (mark_email_verified id at r).0 ≡ ok tt
    → find_by_id id (mark_email_verified id at r).1 ≡ ok u
    → u.email_verified_at ≡ some at
unfolding mark_email_verified find_by_id pointed
mark_email_verified-marked id at r u e f = elim (Option-cases (lookup id r.by_id)) [
  | inl q ↦ absurd (ground arith)
  | inr (a, q) ↦ elim (Option-cases (record_at a r.records)) [
    | inl p ↦ absurd (ground arith)
    | inr (v, p) ↦
        let stored =
          record_at-set_record a v (record v { email_verified_at = some at; updated_at = at })
            r.records p in
        ground arith
  ]
]

users-ok :
    (id : String) (at : ℕ) (s s' : IdentityState)
    → on_users (mark_email_verified id at) s ≡ (ok tt, s')
    → ((mark_email_verified id at s.users).0 ≡ ok tt)
      × (s'.users ≡ (mark_email_verified id at s.users).1)
      × (s'.tokens ≡ s.tokens)
unfolding on_users
users-ok id at s s' e = (ground arith, ground arith, ground arith)

tokens-ok :
    (hash : String) (at : ℕ) (t : VerificationToken) (s s' : IdentityState)
    → lookup hash s.tokens ≡ some t
    → on_tokens (mark_used hash at) s ≡ (ok tt, s')
    → (s'.users ≡ s.users) × (lookup hash s'.tokens ≡ some (record t { used_at = some at }))
unfolding on_tokens mark_used
tokens-ok hash at t s s' h e =
    let burnt = lookup-insert_self hash (record t { used_at = some at }) s.tokens in
    (ground arith, ground arith)

complete_redemption-ok :
    (t : VerificationToken) (hash : String) (at : ℕ) (s s' : IdentityState) (r : VerifyResponse)
    → lookup hash s.tokens ≡ some t
    → complete_redemption t hash at s ≡ (ok r, s')
    → (u : User) × (find_by_id t.user_id s'.users ≡ ok u)
      × (u.email_verified_at ≡ some at)
      × (r.verified_at ≡ at)
      × (lookup hash s'.tokens ≡ some (record t { used_at = some at }))
unfolding complete_redemption
complete_redemption-ok t hash at s s' r h e = >>=-elim _ _ e λ _ s₁ e₁ rest₁.
    >>=-elim _ _ rest₁ λ _ s₂ e₂ rest₂. >>=-elim _ _ rest₂ λ u s₃ e₃ rest₃.
      let (done, users, tokens) = users-ok t.user_id at s s₁ e₁ in
      let (same, burnt) = tokens-ok hash at t s₁ s₂ (ap (lookup hash) tokens ∙ h) e₂ in
      let (answer, last) = pure-ok _ r s₃ s' rest₃ in
      let kept : s' ≡ s₂ = sym last ∙ ap (λ x. x.1) (sym e₃) in
      let found : find_by_id t.user_id s₂.users ≡ ok u = ap (λ x. x.0) e₃ in
      let first : s₂.users ≡ (mark_email_verified t.user_id at s.users).1 = same ∙ users in
      (
        u,
        ap (λ x. find_by_id t.user_id x.users) kept ∙ found,
        mark_email_verified-marked t.user_id at s.users u done
            (sym (ap (find_by_id t.user_id) first) ∙ found),
        sym (ap (λ x. x.verified_at) answer),
        ap (λ x. lookup hash x.tokens) kept ∙ burnt,
      )

read_time-ok :
    (env : Deps) (s s' : IdentityState) (at : ℕ)
    → read_time env s ≡ (ok at, s')
    → s'.tokens ≡ s.tokens
unfolding read_time
read_time-ok env s s' at e = ground arith

verify_email-Verified :
    (env : Deps) (raw : String) (s s' : IdentityState) (r : VerifyResponse)
    → verify_email env raw s ≡ (ok r, s')
    → Verified env raw s s' r
unfolding verify_email
verify_email-Verified env raw s s' r e = >>=-elim _ _ e λ _ s₁ e₁ rest₁.
    >>=-elim _ _ rest₁ λ at s₂ e₂ rest₂. >>=-elim _ _ rest₂ λ t s₃ e₃ rest₃.
      let hash = env.sha256 (trim raw) in
      let tokens : s₂.tokens ≡ s.tokens =
        read_time-ok env s₁ s₂ at e₂ ∙ ap (λ x. x.tokens) ((fail_if-ok _ _ s s₁ e₁).1) in
      let kept : s₃ ≡ s₂ = ap (λ x. x.1) (sym e₃) in
      let (stored, unused, live) = find_redeemable-ok hash at s₂.tokens t (ap (λ x. x.0) e₃) in
      let (u, found, marked, answer, burnt) =
        complete_redemption-ok t hash at s₃ s' r (ap (λ x. lookup hash x.tokens) kept ∙ stored)
          rest₃ in
      record {
        token = t;
        stored = sym (ap (lookup hash) tokens) ∙ stored;
        unused = unused;
        live = rw answer live;
        user = u;
        found = found;
        marked = marked ∙ ap some (sym answer);
        burnt = rw answer burnt;
      }

verify_email-not_empty :
    (env : Deps) (raw : String) (s s' : IdentityState) (r : VerifyResponse)
    → verify_email env raw s ≡ (ok r, s')
    → is_empty (trim raw) ≡ false
unfolding verify_email
verify_email-not_empty env raw s s' r e = >>=-elim _ _ e λ _ s₁ e₁ rest. (fail_if-ok _ _ s s₁ e₁).0

verify_email-replay :
    (env : Deps) (raw : String) (later : IdentityState) (t : VerificationToken) (at : ℕ)
    → is_empty (trim raw) ≡ false
    → lookup (env.sha256 (trim raw)) later.tokens ≡ some (record t { used_at = some at })
    → ((verify_email env raw later).0 ≡ err (app unauthorized))
      × ((verify_email env raw later).1.users ≡ later.users)
      × ((verify_email env raw later).1.tokens ≡ later.tokens)
unfolding verify_email read_time ◌>>=◌ lookup
verify_email-replay env raw later t at filled burnt =
    let refused =
      find_redeemable-used (env.sha256 (trim raw)) (env.clock later.readings) at later.tokens _
        burnt refl in
    rw filled (rw refused (refl, refl, refl))

-- A verification succeeds only with a stored token that is unexpired and unused; the user it
-- belongs to is verified afterwards, from the time that is answered, and the token is used. Whenever
-- the stored tokens are again those after it, a verification with the same token is refused, and
-- leaves users and tokens as they are.
pub verify_email-once :
    (env : Deps) (raw : String) (s s' later : IdentityState) (r : VerifyResponse)
    → verify_email env raw s ≡ (ok r, s')
    → later.tokens ≡ s'.tokens
    → Verified env raw s s' r
      × ((verify_email env raw later).0 ≡ err (app unauthorized))
      × ((verify_email env raw later).1.users ≡ later.users)
      × ((verify_email env raw later).1.tokens ≡ later.tokens)
verify_email-once env raw s s' later r e same =
    let v = verify_email-Verified env raw s s' r e in
    let filled = verify_email-not_empty env raw s s' r e in
    let (refused, users, tokens) =
      verify_email-replay env raw later v.token r.verified_at filled
        (ap (lookup (env.sha256 (trim raw))) same ∙ v.burnt) in
    (v, refused, users, tokens)
