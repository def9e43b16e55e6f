-- ===== src/Entitlements/Invites.antt =====
-- InviteService of application/invite_service.go on the memory repositories of seats and invites.
pub mod Steps
pub mod Capacity
use identity_platform_go.Base.{
  ℕ, suc, ◌+◌, Bool, true, false, Option, none, some, String, List, [], ◌∷◌, Result, ok, err,
  Action, ◌>>=◌, ◌>>◌, fail_if, or_fail, gets, pure, ◌==◌, ◌&&◌, ◌||◌, not, if◌then◌else◌, is_empty,
  ltb, leb, ErrorCode, bad_request, forbidden, conflict, internal, or_else,
}
use identity_platform_go.Base.Dict.{Dict, lookup, insert}
use identity_platform_go.Identity.Verification.{fill_slots}
use identity_platform_go.Entitlements.Seats.{Seat, is_owner_role}

-- `domain.Invite`
pub record Invite : Type 0 where
  pub id : String
  pub account_id : String
  pub invited_by_seat_id : String
  pub invited_email : String
  pub token_hash : String
  pub raw_token : String
  pub expires_at : ℕ
  pub accepted_at : Option ℕ
  pub revoked_at : Option ℕ
  pub created_at : ℕ

pub data InviteStatus : Type 0 where
  pending accepted revoked expired : InviteStatus

-- `Status`
unfoldable pub status : Invite → ℕ → InviteStatus
status i now = elim i.accepted_at [
  | some _ ↦ accepted
  | none ↦ elim i.revoked_at [
    | some _ ↦ revoked
    | none ↦ if ltb i.expires_at now || not (ltb now i.expires_at) then expired else pending
  ]
]

-- `IsOpen`
unfoldable pub is_open : Invite → ℕ → Bool
unfolding status
is_open i now = elim (status i now) [
  | pending ↦ true
  | accepted ↦ false
  | revoked ↦ false
  | expired ↦ false
]

-- `ports.InviteEmail`
pub record InviteEmail : Type 0 where
  pub to_email : String
  pub signup_url : String
  pub expires_at : ℕ

-- The seats and allowances of the account repository, the invites, and what the calls have done
pub record InviteState : Type 0 where
  pub seats : Dict (List Seat)
  pub allowances : Dict ℕ
  pub invites : Dict Invite
  pub readings : ℕ
  pub draws : ℕ
  pub hashes : ℕ
  pub mails : ℕ
  pub emissions : ℕ
  pub outbox : List InviteEmail
  pub sent : List Invite

-- The clock, the random source, bcrypt, the mail sender, the audit sink and the configuration
pub record InviteDeps : Type 0 where
  pub clock : ℕ → ℕ
  pub random : ℕ → Option String
  pub hash : ℕ → String → Option String
  pub sends : ℕ → Bool
  pub sink : ℕ → Bool
  pub ttl : ℕ
  pub signup_url_pattern : String

-- `InviteRequest`
pub record InviteRequest : Type 0 where
  pub account_id : String
  pub requester_user_id : String
  pub invited_email : String

abbrev pub Inviting : Type 0 → Type 0
Inviting = Action InviteState ErrorCode

unfoldable pub tick : InviteDeps → Inviting ℕ
tick env s = (ok (env.clock s.readings), record s { readings = suc s.readings })

-- `newInviteToken`, and `newID` of the repository
unfoldable pub draw_hex : InviteDeps → Inviting String
draw_hex env s = or_fail (env.random s.draws) internal (record s { draws = suc s.draws })

unfoldable pub hash_token : InviteDeps → String → Inviting String
hash_token env raw s = or_fail (env.hash s.hashes raw) internal (record s { hashes = suc s.hashes })

-- `ListByAccount` and `SeatAllowance`
abbrev pub list_by_account : String → InviteState → List Seat
list_by_account account s = or_else [] (lookup account s.seats)

abbrev pub seat_allowance : String → InviteState → ℕ
seat_allowance account s = or_else 1 (lookup account s.allowances)

-- `CountOpen`
unfoldable pub count_open : String → ℕ → Dict Invite → ℕ
unfolding is_open
count_open account now [] = 0
count_open account now ((k, i) ∷ d) =
    let rest = count_open account now d in
    if (i.account_id == account) && is_open i now then suc rest else rest

unfoldable pub is_unanswered : Invite → Bool
is_unanswered i = elim i.accepted_at [
  | some _ ↦ false
  | none ↦ elim i.revoked_at [ some _ ↦ false | none ↦ true ]
]

-- The loop of `Insert`: an invite for the address that is neither accepted nor revoked
unfoldable pub has_unanswered : String → String → Dict Invite → Bool
unfolding is_unanswered
has_unanswered account email [] = false
has_unanswered account email ((k, i) ∷ d) =
    let rest = has_unanswered account email d in
    if (i.account_id == account) && (i.invited_email == email) && is_unanswered i
    then true
    else rest

unfoldable pub put_invite : Invite → Inviting (Unit {0})
put_invite i s = (ok tt, record s { invites = insert i.id i s.invites })

-- `Insert`; the stored invite has no raw token.
unfoldable pub insert_invite : InviteDeps → Invite → Inviting Invite
unfolding tick has_unanswered draw_hex put_invite
insert_invite env i = do
  now ← tick env
  λ s. fail_if (has_unanswered i.account_id i.invited_email s.invites) conflict s
  id ← draw_hex env
  put_invite (record i { id = id; raw_token = ""; created_at = now })
  pure (record i { id = id; created_at = now })

unfoldable pub seat_count : List Seat → ℕ
seat_count [] = 0
seat_count (_ ∷ ss) = suc (seat_count ss)

-- `isOwner`
unfoldable pub is_owner : List Seat → String → Bool
unfolding is_owner_role
is_owner [] user = false
is_owner (s ∷ ss) user =
    let rest = is_owner ss user in
    if (s.user_id == user) && is_owner_role s.role then true else rest

-- The loop of `resolveInviterSeatID`
unfoldable pub owner_seat : List Seat → String → Option String
unfolding is_owner_role
owner_seat [] user = none
owner_seat (s ∷ ss) user =
    let rest = owner_seat ss user in
    if (s.user_id == user) && is_owner_role s.role then some s.id else rest

-- `assertOwnerAndCapacity`
unfoldable pub assert_capacity : InviteDeps → InviteRequest → Inviting (Unit {0})
unfolding is_owner tick seat_count count_open
assert_capacity env req = do
  seats ← gets (list_by_account req.account_id)
  fail_if (not (is_owner seats req.requester_user_id)) forbidden
  allowance ← gets (seat_allowance req.account_id)
  now ← tick env
  waiting ← gets (λ s. count_open req.account_id now s.invites)
  fail_if (leb allowance (seat_count seats + waiting)) conflict

-- The invite that `createInvite` hands to the repository
abbrev pub new_invite : InviteDeps → InviteRequest → String → String → String → ℕ → Invite
new_invite env req raw hash seat at = record {
  id = "";
  account_id = req.account_id;
  invited_by_seat_id = seat;
  invited_email = req.invited_email;
  token_hash = hash;
  raw_token = raw;
  expires_at = at + env.ttl;
  accepted_at = none;
  revoked_at = none;
  created_at = 0;
}

-- `createInvite`
unfoldable pub create_invite : InviteDeps → InviteRequest → Inviting Invite
unfolding hash_token owner_seat insert_invite
create_invite env req = do
  raw ← draw_hex env
  hash ← hash_token env raw
  seats ← gets (list_by_account req.account_id)
  seat ← or_fail (owner_seat seats req.requester_user_id) internal
  at ← tick env
  insert_invite env (new_invite env req raw hash seat at)

-- `s.email.SendInvite`
unfoldable pub send_invite : InviteDeps → InviteEmail → Inviting (Unit {0})
send_invite env m s =
    if env.sends s.mails
    then (ok tt, record s { mails = suc s.mails; outbox = m ∷ s.outbox })
    else (err internal, record s { mails = suc s.mails })

-- `emitInviteSent`
unfoldable pub emit_sent : InviteDeps → Invite → Inviting (Unit {0})
emit_sent env i s =
    if env.sink s.emissions
    then (ok tt, record s { emissions = suc s.emissions; sent = i ∷ s.sent })
    else (err internal, record s { emissions = suc s.emissions })

-- `Invite`, with `validateInviteRequest` and `sendInviteEmail`
unfoldable pub invite : InviteDeps → InviteRequest → Inviting Invite
unfolding assert_capacity create_invite send_invite emit_sent fill_slots
invite env req = do
  fail_if (is_empty req.account_id) bad_request
  fail_if (is_empty req.requester_user_id) bad_request
  fail_if (is_empty req.invited_email) bad_request
  assert_capacity env req
  i ← create_invite env req
  send_invite env (record {
    to_email = req.invited_email;
    signup_url = fill_slots 0 i.raw_token env.signup_url_pattern;
    expires_at = i.expires_at;
  })
  emit_sent env i
  pure i
