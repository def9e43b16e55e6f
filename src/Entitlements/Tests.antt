-- ===== src/Entitlements/Tests.antt =====
-- An account with an owner and a member.
use identity_platform_go.Base.{
  arith, suc, ◌≡◌, ◌≢◌, refl, true, some, String, [], ◌∷◌, ok, ◌>>=◌, length,
}
use identity_platform_go.Base.Dict.{lookup}
use identity_platform_go.Entitlements.Seats.{
  Seat, owner, member, Accounts, Setup, Transfer, Removal, seats_of, first_seat, last_seat,
  is_owner_role, transfer_ownership, remove_seat, preflight, valid_transfer, fresh_auth,
  assert_owner, swap_owner, send, valid_removal, remove_seat_row, without_seat,
  ownership_transferred,
}
use identity_platform_go.Entitlements.Ownership.{Swapped, transfer_ownership-Swapped}
use identity_platform_go.Entitlements.Removal.{remove_seat_keeps_owner}
use identity_platform_go.Entitlements.Invites.{
  Invite, InviteDeps, InviteState, InviteRequest, invite, new_invite,
}
use identity_platform_go.Entitlements.Invites.Capacity.{Invited, invite-Invited}

abbrev ann : Seat
ann = record {
  id = "1";
  account_id = "a";
  user_id = "ann";
  role = owner;
  created_at = 0;
  updated_at = 0;
}

abbrev bob : Seat
bob = record {
  id = "2";
  account_id = "a";
  user_id = "bob";
  role = member;
  created_at = 0;
  updated_at = 0;
}

abbrev accounts : Accounts
accounts = record { seats = ("a", ann ∷ bob ∷ []) ∷ []; sent = [] }

abbrev setup : Setup
setup = record { now = 10; written_at = 11; stored = true; max_auth_age = 300 }

abbrev handing_over : Transfer
handing_over = record { account_id = "a"; requester = "ann"; auth_time = 5; target = "bob" }

abbrev removing : Removal
removing = record { account_id = "a"; requester = "ann"; target = "bob" }

abbrev handed_over : Accounts
handed_over = (transfer_ownership setup handing_over accounts).1

abbrev removed : Accounts
removed = (remove_seat setup removing accounts).1

transfer_run : transfer_ownership setup handing_over accounts ≡ (ok tt, handed_over)
unfolding transfer_ownership ◌>>=◌ preflight valid_transfer fresh_auth assert_owner first_seat
    lookup is_owner_role swap_owner last_seat send
transfer_run = refl

removal_run : remove_seat setup removing accounts ≡ (ok tt, removed)
unfolding remove_seat ◌>>=◌ valid_removal assert_owner first_seat lookup is_owner_role
    remove_seat_row without_seat send
removal_run = refl

transfer_ownership-Swapped_example :
    (◌≢◌ {A = String} "ann" "bob")
    × ((seat : Seat) × (first_seat "ann" (seats_of "a" accounts) ≡ some seat)
        × (is_owner_role seat.role ≡ true))
    × Swapped 11 "a" "ann" "bob" accounts handed_over
    × (handed_over.sent ≡ ownership_transferred "a" "ann" "bob" ∷ [])
transfer_ownership-Swapped_example =
    transfer_ownership-Swapped setup handing_over accounts handed_over transfer_run

remove_seat_keeps_owner_example :
    (◌≢◌ {A = String} "ann" "bob")
    × ((seat : Seat) × (is_owner_role seat.role ≡ true)
        × (first_seat "ann" (seats_of "a" accounts) ≡ some seat)
        × (first_seat "ann" (seats_of "a" removed) ≡ some seat))
    × (suc (length (seats_of "a" removed)) ≡ length (seats_of "a" accounts))
remove_seat_keeps_owner_example =
    remove_seat_keeps_owner setup removing accounts removed removal_run

abbrev inviting : InviteDeps
inviting = record {
  clock = λ n. n;
  random = λ n. some "t";
  hash = λ n p. some p;
  sends = λ n. true;
  sink = λ n. true;
  ttl = 7;
  signup_url_pattern = "/s?t={{token}}";
}

abbrev before : InviteState
before = record {
  seats = accounts.seats;
  allowances = ("a", 3) ∷ [];
  invites = [];
  readings = 0;
  draws = 0;
  hashes = 0;
  mails = 0;
  emissions = 0;
  outbox = [];
  sent = [];
}

abbrev asking : InviteRequest
asking = record { account_id = "a"; requester_user_id = "ann"; invited_email = "c@d" }

abbrev invited : InviteState
invited = (invite inviting asking before).1

abbrev invitation : Invite
invitation = record (new_invite inviting asking "t" "t" "1" 1) { id = "t"; created_at = 2 }

invite_run : invite inviting asking before ≡ (ok invitation, invited)
unfolding invite ◌>>=◌ lookup
invite_run = refl

invite-Invited_example : Invited inviting asking before invited invitation 4
invite-Invited_example =
    invite-Invited inviting asking before invited invitation 4 invite_run (omega arith)
