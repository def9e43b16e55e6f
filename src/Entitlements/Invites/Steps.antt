-- ===== src/Entitlements/Invites/Steps.antt =====
-- What each step of a successful invitation shows.
use identity_platform_go.Base.{
  suc, ◌+◌, ◌<◌, ◌≡◌, ap, sym, ◌∙◌, arith, true, false, inl, inr, Option, none, some, Option-cases,
  Bool-cases, String, ◌∷◌, ok, ◌>>=◌, >>=-elim, pure-ok, fail_if-ok, or_fail, leb, internal,
  ErrorCode,
}
use identity_platform_go.Base.Dict.{lookup, insert}
use identity_platform_go.Entitlements.Invites.{
  Invite, InviteState, InviteDeps, InviteRequest, tick, draw_hex, hash_token, list_by_account,
  seat_allowance, count_open, has_unanswered, put_invite, insert_invite, seat_count, is_owner,
  new_invite, assert_capacity, create_invite, send_invite, emit_sent, InviteEmail,
}

pub assert_capacity-ok :
    (env : InviteDeps) (req : InviteRequest) (s s' : InviteState)
    → assert_capacity env req s ≡ (ok tt, s')
    → (is_owner (list_by_account req.account_id s) req.requester_user_id ≡ true)
      × (seat_count (list_by_account req.account_id s)
            + count_open req.account_id (env.clock s.readings) s.invites
          < seat_allowance req.account_id s)
      × (s' ≡ record s { readings = suc s.readings })
unfolding assert_capacity tick ◌>>=◌ lookup
assert_capacity-ok env req s s' e =
    let seats = list_by_account req.account_id s in
    let waiting = count_open req.account_id (env.clock s.readings) s.invites in
    elim (Bool-cases (is_owner seats req.requester_user_id)) [
      | inr q ↦ let never = rw q at e in absurd (ground arith)
      | inl q ↦
          elim (Bool-cases (leb (seat_allowance req.account_id s) (seat_count seats + waiting))) [
            | inl p ↦ let never = rw (q, p) at e in absurd (ground arith)
            | inr p ↦ let passed = rw (q, p) at e in (q, ground arith, ground arith)
          ]
    ]

hash-keeps :
    (env : InviteDeps) (raw : String) (s s' : InviteState) (h : String)
    → hash_token env raw s ≡ (ok h, s')
    → s' ≡ record s { hashes = suc s.hashes }
unfolding hash_token
hash-keeps env raw s s' h e = elim (Option-cases (env.hash s.hashes raw)) [
  | inl q ↦ absurd (ground arith)
  | inr (x, q) ↦ ground arith
]

draw-keeps :
    (env : InviteDeps) (s s' : InviteState) (h : String)
    → draw_hex env s ≡ (ok h, s')
    → s' ≡ record s { draws = suc s.draws }
unfolding draw_hex
draw-keeps env s s' h e = elim (Option-cases (env.random s.draws)) [
  | inl q ↦ absurd (ground arith)
  | inr (x, q) ↦ ground arith
]

insert_invite-ok :
    (env : InviteDeps) (new i : Invite) (s s' : InviteState)
    → insert_invite env new s ≡ (ok i, s')
    → (has_unanswered new.account_id new.invited_email s.invites ≡ false)
      × (s'.invites ≡ insert i.id (record i { raw_token = "" }) s.invites)
      × (s'.seats ≡ s.seats)
      × (s'.allowances ≡ s.allowances)
      × (s'.sent ≡ s.sent)
unfolding insert_invite tick put_invite
insert_invite-ok env new i s s' e = >>=-elim _ _ e λ now s₁ e₁ rest₁.
    >>=-elim _ _ rest₁ λ _ s₂ e₂ rest₂. >>=-elim _ _ rest₂ λ id s₃ e₃ rest₃.
      >>=-elim _ _ rest₃ λ _ s₄ e₄ rest₄.
        let (same, last) = pure-ok _ i s₄ s' rest₄ in
        let drawn = draw-keeps env s₂ s₃ id e₃ in
        let (passed, kept) = fail_if-ok _ _ s₁ s₂ e₂ in
        (ground arith, ground arith, ground arith, ground arith, ground arith)

or_fail-keeps :
    {A : Type 0} (o : Option A) (x : ErrorCode) (s s' : InviteState) (a : A)
    → or_fail o x s ≡ (ok a, s')
    → s' ≡ s
or_fail-keeps none x s s' a e = absurd (ground arith)
or_fail-keeps (some b) x s s' a e = ground arith

pub create_invite-ok :
    (env : InviteDeps) (req : InviteRequest) (i : Invite) (s s' : InviteState)
    → create_invite env req s ≡ (ok i, s')
    → (has_unanswered req.account_id req.invited_email s.invites ≡ false)
      × (s'.invites ≡ insert i.id (record i { raw_token = "" }) s.invites)
      × (s'.seats ≡ s.seats)
      × (s'.allowances ≡ s.allowances)
      × (s'.sent ≡ s.sent)
unfolding create_invite tick
create_invite-ok env req i s s' e = >>=-elim _ _ e λ raw s₁ e₁ rest₁.
    >>=-elim _ _ rest₁ λ hash s₂ e₂ rest₂. >>=-elim _ _ rest₂ λ seats s₃ e₃ rest₃.
      >>=-elim _ _ rest₃ λ seat s₄ e₄ rest₄. >>=-elim _ _ rest₄ λ at s₅ e₅ rest₅.
        let k₁ = draw-keeps env s s₁ raw e₁ in
        let k₂ = hash-keeps env raw s₁ s₂ hash e₂ in
        let k₄ = or_fail-keeps _ internal s₃ s₄ seat e₄ in
        let (fresh, invites, kept, allowed, sent) =
          insert_invite-ok env (new_invite env req raw hash seat at) i s₅ s' rest₅ in
        let same : s₅.invites ≡ s.invites = ground arith in
        let seats_kept : s₅.seats ≡ s.seats = ground arith in
        let allowances_kept : s₅.allowances ≡ s.allowances = ground arith in
        let sent_kept : s₅.sent ≡ s.sent = ground arith in
        (
          sym (ap (has_unanswered req.account_id req.invited_email) same) ∙ fresh,
          invites ∙ ap (insert i.id (record i { raw_token = "" })) same,
          kept ∙ seats_kept,
          allowed ∙ allowances_kept,
          sent ∙ sent_kept,
        )

pub send_invite-ok :
    (env : InviteDeps) (m : InviteEmail) (s s' : InviteState)
    → send_invite env m s ≡ (ok tt, s')
    → s' ≡ record s { mails = suc s.mails; outbox = m ∷ s.outbox }
unfolding send_invite
send_invite-ok env m s s' e = elim (Bool-cases (env.sends s.mails)) [
  | inl q ↦ ground arith
  | inr q ↦ absurd (ground arith)
]

pub emit_sent-ok :
    (env : InviteDeps) (i : Invite) (s s' : InviteState)
    → emit_sent env i s ≡ (ok tt, s')
    → s' ≡ record s { emissions = suc s.emissions; sent = i ∷ s.sent }
unfolding emit_sent
emit_sent-ok env i s s' e = elim (Bool-cases (env.sink s.emissions)) [
  | inl q ↦ ground arith
  | inr q ↦ absurd (ground arith)
]
