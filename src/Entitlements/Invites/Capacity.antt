-- ===== src/Entitlements/Invites/Capacity.antt =====
-- Invitations stay within the seats that the plan allows.
use identity_platform_go.Base.{
  ℕ, suc, ◌+◌, ◌≤◌, ◌<◌, ◌≡◌, ap, sym, subst, ◌∙◌, arith, true, false, some, String, [], ◌∷◌, ok,
  >>=-elim, pure-ok, fail_if-ok,
}
use identity_platform_go.Base.Dict.{Dict, lookup, insert, lookup-insert_self}
use identity_platform_go.Entitlements.Invites.{
  Invite, status, is_open, InviteState, InviteDeps, InviteRequest, list_by_account, seat_allowance,
  count_open, has_unanswered, seat_count, is_owner, invite,
}
use identity_platform_go.Entitlements.Invites.Steps.{
  assert_capacity-ok, create_invite-ok, send_invite-ok, emit_sent-ok,
}

is_open-later :
    (i : Invite) (now later : ℕ) → now ≤ later → is_open i later ≡ true → is_open i now ≡ true
unfolding is_open status
is_open-later i now later le e = ground arith

count_open-later :
    (account : String) (now later : ℕ) (d : Dict Invite)
    → now ≤ later
    → count_open account later d ≤ count_open account now d
unfolding count_open
count_open-later account now later [] le = omega arith
count_open-later account now later ((k, i) ∷ d) le =
    ground (arith, is_open-later i now later le, count_open-later account now later d le)

count_open-insert :
    (account : String) (now : ℕ) (k : String) (i : Invite) (d : Dict Invite)
    → count_open account now (insert k i d) ≤ suc (count_open account now d)
unfolding count_open insert
count_open-insert account now k i [] = ground arith
count_open-insert account now k i ((j, v) ∷ d) = ground (arith, count_open-insert account now k i d)

-- What an invitation that succeeds shows, seen at the time `t`
pub record Invited (env : InviteDeps) (req : InviteRequest) (s s' : InviteState) (i : Invite)
    (t : ℕ) : Type 0 where
  pub owner : is_owner (list_by_account req.account_id s) req.requester_user_id ≡ true
  pub fresh : has_unanswered req.account_id req.invited_email s.invites ≡ false
  pub stored : lookup i.id s'.invites ≡ some (record i { raw_token = "" })
  pub audited : s'.sent ≡ i ∷ s.sent
  pub capacity :
      seat_count (list_by_account req.account_id s') + count_open req.account_id t s'.invites
      ≤ seat_allowance req.account_id s'

-- One more invite at a later time: the seats still suffice.
capacity-insert :
    (account : String) (now later seats allowance : ℕ) (k : String) (i : Invite) (d : Dict Invite)
    → seats + count_open account now d < allowance
    → now ≤ later
    → seats + count_open account later (insert k i d) ≤ allowance
capacity-insert account now later seats allowance k i d free le =
    ground (arith, count_open-insert account later k i d, count_open-later account now later d le)

-- An invitation succeeds only when an owner of the account asks for an address that has no
-- unanswered invite; the invite is stored without its raw token and its event is the latest of the
-- audit trail; and from the reading of the clock at the check on, the seats and the open invites
-- together are within the allowance of the account.
pub invite-Invited :
    (env : InviteDeps) (req : InviteRequest) (s s' : InviteState) (i : Invite) (t : ℕ)
    → invite env req s ≡ (ok i, s')
    → env.clock s.readings ≤ t
    → Invited env req s s' i t
unfolding invite
invite-Invited env req s s' i t e le = >>=-elim _ _ e λ _ s₁ e₁ rest₁.
    >>=-elim _ _ rest₁ λ _ s₂ e₂ rest₂. >>=-elim _ _ rest₂ λ _ s₃ e₃ rest₃.
      >>=-elim _ _ rest₃ λ _ s₄ e₄ rest₄. >>=-elim _ _ rest₄ λ j s₅ e₅ rest₅.
        >>=-elim _ _ rest₅ λ _ s₆ e₆ rest₆. >>=-elim _ _ rest₆ λ _ s₇ e₇ rest₇.
          let start : s₃ ≡ s =
            (fail_if-ok _ _ s₂ s₃ e₃).1
            ∙ (fail_if-ok _ _ s₁ s₂ e₂).1
            ∙ (fail_if-ok _ _ s s₁ e₁).1 in
          let (owner, free, checked) = assert_capacity-ok env req s₃ s₄ e₄ in
          let (fresh, invites, seats, allowances, sent) = create_invite-ok env req j s₄ s₅ e₅ in
          let mailed = send_invite-ok env _ s₅ s₆ e₆ in
          let audited = emit_sent-ok env j s₆ s₇ e₇ in
          let (same, last) = pure-ok j i s₇ s' rest₇ in
          let within =
            capacity-insert req.account_id (env.clock s₃.readings) t
              (seat_count (list_by_account req.account_id s₃)) (seat_allowance req.account_id s₃)
              j.id (record j { raw_token = "" }) s₃.invites free
              (subst (λ x. env.clock x.readings ≤ t) (sym start) le) in
          let all : s'.invites ≡ insert j.id (record j { raw_token = "" }) s₃.invites =
            ground arith in
          let seated : s'.seats ≡ s₃.seats = ground arith in
          let allowed : s'.allowances ≡ s₃.allowances = ground arith in
          let told : s'.sent ≡ j ∷ s₃.sent = ground arith in
          let unanswered =
            sym (ap (λ x. has_unanswered req.account_id req.invited_email x.invites) checked)
            ∙ fresh in
          let known = lookup-insert_self j.id (record j { raw_token = "" }) s₃.invites in
          let seen : Invited env req s₃ s' j t = record {
            owner = owner;
            fresh = unanswered;
            stored = ap (lookup j.id) all ∙ known;
            audited = told;
            capacity = rw (seated, allowed, all) within;
          } in
          subst (λ x. Invited env req x s' i t) start
            (subst (λ x. Invited env req s₃ s' x t) same seen)
