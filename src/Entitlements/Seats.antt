-- ===== src/Entitlements/Seats.antt =====
-- AccountService of application/account_service.go, for seats, on adapters/outbound/memory's
-- account_repo.go. A seat list is a slice that the repository changes in place under its mutex.
use identity_platform_go.Base.{
  ℕ, ◌+◌, ◌-◌, Bool, true, false, Option, none, some, String, List, [], ◌∷◌, Result, ok, err, ◌>>=◌,
  ◌>>◌, Action, fail_if, lift, pure, ◌==◌, not, if◌then◌else◌, is_empty, ltb, ErrorCode,
  bad_request, forbidden, missing, conflict, internal, or_else,
}
use identity_platform_go.Base.Dict.{Dict, lookup, insert}

-- `domain.Role`
pub data SeatRole : Type 0 where
  owner admin member : SeatRole

unfoldable pub is_owner_role : SeatRole → Bool
is_owner_role owner = true
is_owner_role admin = false
is_owner_role member = false

-- `domain.Seat`
pub record Seat : Type 0 where
  pub id : String
  pub account_id : String
  pub user_id : String
  pub role : SeatRole
  pub created_at : ℕ
  pub updated_at : ℕ

-- The audit events of the two operations, as far as they depend on the request.
pub data SeatEvent : Type 0 where
  ownership_transferred : String → String → String → SeatEvent
  seat_removed : String → String → String → Seat → SeatEvent

pub record Accounts : Type 0 where
  pub seats : Dict (List Seat)
  pub sent : List SeatEvent

-- What the service is constructed with: its clock's reading, that of the repository behind it, whether the sink stores the event, and
-- the ceiling of the age of an authentication (zero for none).
pub record Setup : Type 0 where
  pub now : ℕ
  pub written_at : ℕ
  pub stored : Bool
  pub max_auth_age : ℕ

abbrev pub Service : Type 0 → Type 0
Service = Action Accounts ErrorCode

-- `r.seats[accountID]`
abbrev pub seats_of : String → Accounts → List Seat
seats_of account s = or_else [] (lookup account s.seats)

-- The loop of `FindSeat`: the first seat of the user
unfoldable pub first_seat : String → List Seat → Option Seat
first_seat user [] = none
first_seat user (s ∷ ss) =
    let rest = first_seat user ss in if s.user_id == user then some s else rest

-- `FindSeat`
unfoldable pub find_seat : String → String → Service Seat
find_seat account user s = elim (first_seat user (seats_of account s)) [
  | none ↦ (err missing, s)
  | some seat ↦ (ok seat, s)
]

-- The loop of `SwapOwner` for one user: the last seat of that user, as the index is overwritten
unfoldable pub last_seat : String → List Seat → Option Seat
last_seat user [] = none
last_seat user (s ∷ ss) = elim (last_seat user ss) [
  | some t ↦ some t
  | none ↦ if s.user_id == user then some s else none
]

-- `seats[idx].Role = role; seats[idx].UpdatedAt = now`, at the last seat of the user
unfoldable pub set_role : ℕ → String → SeatRole → List Seat → List Seat
unfolding last_seat
set_role now user role [] = []
set_role now user role (s ∷ ss) =
    let rest = set_role now user role ss in
    elim (last_seat user ss) [
      | some _ ↦ s ∷ rest
      | none ↦ (if s.user_id == user then record s { role = role; updated_at = now } else s) ∷ ss
    ]

-- `SwapOwner`
unfoldable pub swap_owner : ℕ → String → String → String → Service (Unit {0})
swap_owner now account old new s =
    let seats = seats_of account s in
    elim (last_seat old seats) [
      | none ↦ (err missing, s)
      | some o ↦ elim (last_seat new seats) [
        | none ↦ (err missing, s)
        | some _ ↦ if not (is_owner_role o.role) then (err conflict, s) else (
          ok tt,
          record s {
            seats = insert account (set_role now new owner (set_role now old admin seats)) s.seats;
          },
        )
      ]
    ]

-- The loop of `Remove`: the list less the first seat of the user
unfoldable pub without_seat : String → List Seat → Option (List Seat)
without_seat user [] = none
without_seat user (s ∷ ss) =
    let rest = without_seat user ss in
    if s.user_id == user then some ss else elim rest [ none ↦ none | some ts ↦ some (s ∷ ts) ]

-- `Remove`
unfoldable pub remove_seat_row : String → String → Service (Unit {0})
remove_seat_row account user s = elim (without_seat user (seats_of account s)) [
  | none ↦ (err missing, s)
  | some ts ↦ (ok tt, record s { seats = insert account ts s.seats })
]

-- `TransferOwnershipRequest`; a time of zero is Go's zero time.
pub record Transfer : Type 0 where
  pub account_id : String
  pub requester : String
  pub auth_time : ℕ
  pub target : String

-- `validateTransferInput`
unfoldable pub valid_transfer : Transfer → Result ErrorCode (Unit {0})
valid_transfer r =
    if is_empty r.account_id
    then err bad_request
    else if is_empty r.requester
    then err bad_request
    else if is_empty r.target
    then err bad_request
    else if not (ltb 0 r.auth_time)
    then err bad_request
    else ok tt

-- `assertFreshAuth`
unfoldable pub fresh_auth : Setup → ℕ → Result ErrorCode (Unit {0})
fresh_auth c auth_time =
    if not (ltb 0 c.max_auth_age)
    then ok tt
    else if ltb (c.now + 1_000_000_000) auth_time
    then err bad_request
    else if ltb c.max_auth_age (c.now - auth_time)
    then err forbidden
    else ok tt

-- `assertRequesterIsOwner`
unfoldable pub assert_owner : String → String → Service (Unit {0})
unfolding find_seat
assert_owner account user s = elim (first_seat user (seats_of account s)) [
  | none ↦ (err forbidden, s)
  | some seat ↦ (if is_owner_role seat.role then ok tt else err forbidden, s)
]

-- `emitter.Emit`
unfoldable pub send : Setup → SeatEvent → Service (Unit {0})
send c event s = if c.stored then (ok tt, record s { sent = event ∷ s.sent }) else (err internal, s)

-- `preflightTransfer`, with `assertTargetSeatExists`
unfoldable pub preflight : Setup → Transfer → Service (Unit {0})
preflight c r = do
  lift (valid_transfer r)
  fail_if (r.requester == r.target) bad_request
  lift (fresh_auth c r.auth_time)
  assert_owner r.account_id r.requester
  _ ← find_seat r.account_id r.target
  pure tt

-- `TransferOwnership`
unfoldable pub transfer_ownership : Setup → Transfer → Service (Unit {0})
transfer_ownership c r = do
  preflight c r
  swap_owner c.written_at r.account_id r.requester r.target
  send c (ownership_transferred r.account_id r.requester r.target)

-- `RemoveSeatRequest`
pub record Removal : Type 0 where
  pub account_id : String
  pub requester : String
  pub target : String

-- `validateRemoveSeatInput`
unfoldable pub valid_removal : Removal → Result ErrorCode (Unit {0})
valid_removal r =
    if is_empty r.account_id
    then err bad_request
    else if is_empty r.requester
    then err bad_request
    else if is_empty r.target
    then err bad_request
    else ok tt

-- `RemoveSeat`
unfoldable pub remove_seat : Setup → Removal → Service (Unit {0})
remove_seat c r = do
  lift (valid_removal r)
  fail_if (r.requester == r.target) conflict
  assert_owner r.account_id r.requester
  removed ← find_seat r.account_id r.target
  remove_seat_row r.account_id r.target
  send c (seat_removed r.account_id r.requester r.target removed)
