-- ===== src/Identity/SignUp.antt =====
-- A registration makes a login possible.
use identity_platform_go.Base.{
  ℕ, ◌≡◌, refl, arith, ap, sym, ◌∙◌, true, false, inl, inr, none, some, Option-cases, String, List,
  [], ◌∷◌, ok, >>=-elim, pure-ok, fail_if-ok, or_fail, Option, is_empty, ◌||◌,
}
use identity_platform_go.Base.Dict.{lookup, lookup-insert_self}
use identity_platform_go.Identity.{
  User, Users, Problem, account_failed, Deps, IdentityState, find_by_email, record_at, add_record,
  length, save_user, on_users, pointed,
}
use identity_platform_go.Identity.Accounts.{SignUpResponse, login, hash_secret, build_user, sign_up}
use identity_platform_go.Identity.Login.{emit-ok, accepted-answer}

-- bcrypt accepts the text that it has hashed.
pub record Accepts (env : Deps) : Type 0 where
  pub accepts :
      (n : ℕ) (plain hash : String)
      → env.hash_password n plain ≡ some hash
      → env.compare_password hash plain ≡ true

record_at-add_record :
    (u : User) (us : List User) → record_at (length us) (add_record u us) ≡ some u
unfolding record_at length add_record
record_at-add_record u [] = refl
record_at-add_record u (_ ∷ us) = record_at-add_record u us

find_by_email-save_user :
    (u : User) (r : Users)
    → (save_user u r).0 ≡ ok tt
    → find_by_email u.email (save_user u r).1 ≡ ok u
unfolding save_user find_by_email pointed
find_by_email-save_user u r e = elim (Option-cases (lookup u.email r.by_email)) [
  | inr (x, q) ↦ absurd (ground arith)
  | inl q ↦ ground (
    arith,
    record_at-add_record u r.records,
    lookup-insert_self u.email (length r.records) r.by_email,
  )
]

-- What a registration that succeeds has stored
build_user-ok :
    (env : Deps) (email password name : String) (s s' : IdentityState) (u : User)
    → build_user env email password name s ≡ (ok u, s')
    → (env.hash_password s.hashes password ≡ some u.password_hash)
      × (u.email ≡ email)
      × (u.name ≡ name)
      × (u.active ≡ true)
unfolding build_user hash_secret
build_user-ok env email password name s s' u e = >>=-elim _ _ e λ hash s₁ e₁ rest₁.
    >>=-elim _ _ rest₁ λ id s₂ e₂ rest₂. >>=-elim _ _ rest₂ λ at s₃ e₃ rest₃.
      elim (Option-cases (env.hash_password s.hashes password)) [
        | inl q ↦ absurd (ground arith)
        | inr (h, q) ↦
            let same : h ≡ hash = ground arith in
            let made = (pure-ok _ u s₃ s' rest₃).0 in
            (
              q ∙ ap some same ∙ ap (λ x. some x.password_hash) made,
              sym (ap (λ x. x.email) made),
              sym (ap (λ x. x.name) made),
              sym (ap (λ x. x.active) made),
            )
      ]

save-ok :
    (u : User) (s s' : IdentityState)
    → on_users (save_user u) s ≡ (ok tt, s')
    → find_by_email u.email s'.users ≡ ok u
unfolding on_users
save-ok u s s' e =
    let done : (save_user u s.users).0 ≡ ok tt = ap (λ x. x.0) e in
    sym (ap (λ x. find_by_email u.email x.1.users) e) ∙ find_by_email-save_user u s.users done

abbrev SignedUp :
    (env : Deps) (email password name : String) (s' : IdentityState) (r : SignUpResponse) → Type 0
SignedUp env email password name s' r =
    (u : User) × (find_by_email email s'.users ≡ ok u)
    × (u.active ≡ true)
    × ((n : ℕ) × (env.hash_password n password ≡ some u.password_hash))
    × (u.id ≡ r.user_id)
    × (u.email ≡ email)
    × (u.name ≡ name)
    × (is_empty email ≡ false)
    × (is_empty password ≡ false)

fields-filled :
    (email password name : String)
    → (is_empty email || is_empty password || is_empty name) ≡ false
    → (is_empty email ≡ false) × (is_empty password ≡ false)
fields-filled email password name e = ground arith

or_fail-ok :
    {A : Type 0} (o : Option A) (x : Problem) (s s' : IdentityState) (a : A)
    → or_fail o x s ≡ (ok a, s')
    → s' ≡ s
or_fail-ok none x s s' a e = absurd (ground arith)
or_fail-ok (some b) x s s' a e = ground arith

sign_up-SignedUp :
    (env : Deps) (email password name : String) (s s' : IdentityState) (r : SignUpResponse)
    → sign_up env email password name s ≡ (ok r, s')
    → SignedUp env email password name s' r
unfolding sign_up
sign_up-SignedUp env email password name s s' r e = >>=-elim _ _ e λ _ s₁ e₁ rest₁.
    >>=-elim _ _ rest₁ λ _ s₂ e₂ rest₂. >>=-elim _ _ rest₂ λ u s₃ e₃ rest₃.
      >>=-elim _ _ rest₃ λ _ s₄ e₄ rest₄. >>=-elim _ _ rest₄ λ _ s₅ e₅ rest₅.
        >>=-elim _ _ rest₅ λ account s₆ e₆ rest₆.
          let (hashed, address, name_kept, active) =
            build_user-ok env email password name s₂ s₃ u e₃ in
          let (answer, last) = pure-ok _ r s₆ s' rest₆ in
          let kept : s'.users ≡ s₄.users =
            ap (λ x. x.users) (sym last ∙ or_fail-ok _ account_failed s₅ s₆ account e₆)
            ∙ (emit-ok env _ s₄ s₅ e₅).1 in
          let (email_filled, password_filled) =
            fields-filled email password name ((fail_if-ok _ _ s s₁ e₁).0) in
          (
            u,
            ap (find_by_email email) kept
                ∙ ap (λ x. find_by_email x s₄.users) (sym address)
                ∙ save-ok u s₃ s₄ e₄,
            active,
            (s₂.hashes, hashed),
            ap (λ x. x.user_id) answer,
            address,
            name_kept,
            email_filled,
            password_filled,
          )

-- After a registration that succeeds, a login with the same address and password answers the new
-- user, where the event of the login is stored and bcrypt accepts what it has hashed.
pub sign_up-login :
    (env : Deps) (email password name : String) (s s' : IdentityState) (r : SignUpResponse)
    → Accepts env
    → sign_up env email password name s ≡ (ok r, s')
    → env.sink s'.emissions ≡ true
    → (login env email password s').0
      ≡ ok (record { user_id = r.user_id; email = email; name = name })
sign_up-login env email password name s s' r law e works =
    let (u, found, active, (n, hashed), id, address, named, filled, given) =
      sign_up-SignedUp env email password name s s' r e in
    let matches = law.accepts n password u.password_hash hashed in
    accepted-answer env email password s' u filled given found active matches works
    ∙ ap ok (rw (id, address, named) refl)
