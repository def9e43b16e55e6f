-- ===== src/Identity/Login.antt =====
-- What a successful login shows, and when a login is answered.
use identity_platform_go.Base.{
  ◌≡◌, refl, arith, ap, sym, ◌∙◌, true, false, inl, inr, Bool-cases, suc, String, ◌∷◌, ok, err,
  Result-cases, ◌>>=◌, >>=-elim, >>=_ok, is_empty, unauthorized,
}
use identity_platform_go.Base.Dict.{lookup}
use identity_platform_go.Identity.{
  User, Users, IdentityEvent, Problem, app, Deps, IdentityState, find_by_email, emit_identity,
}
use identity_platform_go.Identity.Accounts.{LoginResponse, check_password, user_event, login}

-- What a successful login shows of the state before and after
pub record LoggedIn (env : Deps) (email password : String) (s s' : IdentityState)
    (r : LoginResponse) : Type 0 where
  pub user : User
  pub found : find_by_email email s.users ≡ ok user
  pub active : user.active ≡ true
  pub matches : env.compare_password user.password_hash password ≡ true
  pub answer : r ≡ record { user_id = user.id; email = user.email; name = user.name }
  pub audited : s'.events ≡ user_event "user_authenticated" user ∷ s.events
  pub untouched : s'.users ≡ s.users

check_password-ok :
    (env : Deps) (email password : String) (users : Users) (u : User)
    → check_password env email password users ≡ ok u
    → (find_by_email email users ≡ ok u)
      × (u.active ≡ true)
      × (env.compare_password u.password_hash password ≡ true)
unfolding check_password
check_password-ok env email password users u e = elim (Result-cases (find_by_email email users)) [
  | inr (x, q) ↦ absurd (ground arith)
  | inl (v, q) ↦ ground arith
]

pub emit-ok :
    (env : Deps) (e : IdentityEvent) (s s' : IdentityState)
    → emit_identity env e s ≡ (ok tt, s')
    → (s'.events ≡ e ∷ s.events) × (s'.users ≡ s.users)
unfolding emit_identity
emit-ok env e s s' q = elim (Bool-cases (env.sink s.emissions)) [
  | inl p ↦ (ground arith, ground arith)
  | inr p ↦ absurd (ground arith)
]

-- A login that succeeds is one of an active user with that address whose password matches; its
-- event is the latest in the audit trail, and the users are left as they were.
pub login-LoggedIn :
    (env : Deps) (email password : String) (s s' : IdentityState) (r : LoginResponse)
    → login env email password s ≡ (ok r, s')
    → LoggedIn env email password s s' r
unfolding login
login-LoggedIn env email password s s' r e = >>=-elim _ _ e λ _ s₁ e₁ rest₁.
    >>=-elim _ _ rest₁ λ user s₂ e₂ rest₂. >>=-elim _ _ rest₂ λ _ s₃ e₃ rest₃.
      elim (Result-cases (check_password env email password s₁.users)) [
        | inr (x, q) ↦ absurd (ground arith)
        | inl (v, q) ↦
            let same : s₁ ≡ s = ground arith in
            let got : v ≡ user = ground arith in
            let kept : s₂ ≡ s₁ = ground arith in
            let (found, active, matches) = check_password-ok env email password s₁.users v q in
            let (audited, users) = emit-ok env _ s₂ s₃ e₃ in
            let last : s₃ ≡ s' = ground arith in
            record {
              user = user;
              found = ground arith;
              active = ground arith;
              matches = ground arith;
              answer = ground arith;
              audited = cc;
              untouched = cc;
            }
      ]

unknown-answer :
    (env : Deps) (email password : String) (s : IdentityState) (e : Problem)
    → is_empty email ≡ false
    → is_empty password ≡ false
    → find_by_email email s.users ≡ err e
    → (login env email password s).0 ≡ err (app unauthorized)
unfolding login check_password ◌>>=◌ lookup
unknown-answer env email password s e p q f = rw (p, q, f) refl

mismatch-answer :
    (env : Deps) (email password : String) (s : IdentityState) (u : User)
    → is_empty email ≡ false
    → is_empty password ≡ false
    → find_by_email email s.users ≡ ok u
    → u.active ≡ true
    → env.compare_password u.password_hash password ≡ false
    → (login env email password s).0 ≡ err (app unauthorized)
unfolding login check_password ◌>>=◌ lookup
mismatch-answer env email password s u p q f a m = rw (p, q, f, a, m) refl

-- A login with an address that no user has gets the same answer as one with the address of an
-- active user and a password that does not match, so that the answer does not tell which addresses
-- exist.
pub login-uniform :
    (env : Deps) (unknown known password : String) (s : IdentityState) (e : Problem) (u : User)
    → is_empty unknown ≡ false
    → is_empty known ≡ false
    → is_empty password ≡ false
    → find_by_email unknown s.users ≡ err e
    → find_by_email known s.users ≡ ok u
    → u.active ≡ true
    → env.compare_password u.password_hash password ≡ false
    → (login env unknown password s).0 ≡ (login env known password s).0
login-uniform env unknown known password s e u p p' q f g a m =
    unknown-answer env unknown password s e p q f
    ∙ sym (mismatch-answer env known password s u p' q g a m)

check_password-accepted :
    (env : Deps) (email password : String) (users : Users) (u : User)
    → find_by_email email users ≡ ok u
    → u.active ≡ true
    → env.compare_password u.password_hash password ≡ true
    → check_password env email password users ≡ ok u
unfolding check_password
check_password-accepted env email password users u f a m = ground arith

emit-works :
    (env : Deps) (e : IdentityEvent) (s : IdentityState)
    → env.sink s.emissions ≡ true
    → emit_identity env e s
      ≡ (ok tt, record s { emissions = suc s.emissions; events = e ∷ s.events })
unfolding emit_identity
emit-works env e s w = rw w refl

pub accepted-answer :
    (env : Deps) (email password : String) (s : IdentityState) (u : User)
    → is_empty email ≡ false
    → is_empty password ≡ false
    → find_by_email email s.users ≡ ok u
    → u.active ≡ true
    → env.compare_password u.password_hash password ≡ true
    → env.sink s.emissions ≡ true
    → (login env email password s).0
      ≡ ok (record { user_id = u.id; email = u.email; name = u.name })
unfolding login
accepted-answer env email password s u p q f a m w =
    let checked = check_password-accepted env email password s.users u f a m in
    ap (λ x. x.0)
      (>>=_ok _ _ {s' = s} {a = tt} (rw (p, q) refl)
        ∙ >>=_ok _ _ {s' = s} {a = u} (rw checked refl)
        ∙ >>=_ok _ _ (emit-works env _ s w))
