-- ===== src/Entitlements/Ownership.antt =====
-- TransferOwnership of application/account_service.go and SwapOwner of account_repo.go: the seats
-- before and after.
use identity_platform_go.Base.{
  ℕ, ◌≡◌, ◌≢◌, refl, true, some, String, List, [], ◌∷◌, ok, ◌>>=◌, >>=-elim, arith, Option-cases,
  eq_iff, inl, inr, ap, sym, ◌∙◌, test_of_ne, or_else,
}
use identity_platform_go.Base.Dict.{lookup, lookup-insert_self}
use identity_platform_go.Entitlements.Seats.{
  Seat, SeatRole, owner, admin, is_owner_role, Accounts, Setup, Transfer, seats_of, first_seat,
  last_seat, set_role, swap_owner, assert_owner, find_seat, preflight, transfer_ownership, send,
  ownership_transferred, SeatEvent,
}

last_seat-set_role_self :
    (now : ℕ) (user : String) (role : SeatRole) (xs : List Seat) (s : Seat)
    → last_seat user xs ≡ some s
    → last_seat user (set_role now user role xs) ≡ some (record s { role = role; updated_at = now })
unfolding last_seat set_role
last_seat-set_role_self now user role [] s h = absurd (ground arith)
last_seat-set_role_self now user role (x ∷ xs) s h = elim (Option-cases (last_seat user xs)) [
  | inl q ↦ ground arith
  | inr (t, q) ↦ let rest = last_seat-set_role_self now user role xs t q in ground arith
]

last_seat-set_role_ne :
    (now : ℕ) (user other : String) (role : SeatRole) (xs : List Seat)
    → user ≢ other
    → last_seat other (set_role now user role xs) ≡ last_seat other xs
unfolding last_seat set_role
last_seat-set_role_ne now user other role [] h = refl
last_seat-set_role_ne now user other role (x ∷ xs) h =
    let rest = last_seat-set_role_ne now user other role xs h in
    elim (Option-cases (last_seat user xs)) [
      | inl q ↦ ground (arith, eq_iff x.user_id user, eq_iff x.user_id other, test_of_ne h)
      | inr (t, q) ↦ ground arith
    ]

-- What a swap has done to the seats of the account, and to no other account.
pub record Swapped (now : ℕ) (account old new : String) (w w' : Accounts) : Type 0 where
  pub old_seat : Seat
  pub new_seat : Seat
  pub old_found : last_seat old (seats_of account w) ≡ some old_seat
  pub new_found : last_seat new (seats_of account w) ≡ some new_seat
  pub was_owner : is_owner_role old_seat.role ≡ true
  pub demoted :
      last_seat old (seats_of account w')
      ≡ some (record old_seat { role = admin; updated_at = now })
  pub promoted :
      last_seat new (seats_of account w')
      ≡ some (record new_seat { role = owner; updated_at = now })

-- Exchanged roles: where the two users differ, a swap that succeeds makes the new user the owner and
-- the old owner an admin.
swap_owner-Swapped :
    (now : ℕ) (account old new : String) (w w' : Accounts)
    → old ≢ new
    → swap_owner now account old new w ≡ (ok tt, w')
    → Swapped now account old new w w'
unfolding swap_owner
swap_owner-Swapped now account old new w w' differ e =
    let seats = seats_of account w in
    elim (Option-cases (last_seat old seats)) [
      | inl q ↦ absurd (ground arith)
      | inr (o, q) ↦ elim (Option-cases (last_seat new seats)) [
        | inl p ↦ absurd (ground arith)
        | inr (n, p) ↦
            let first = set_role now old admin seats in
            let kept = last_seat-set_role_ne now old new admin seats differ in
            let n' = last_seat-set_role_self now new owner first n (kept ∙ p) in
            let o' =
              last_seat-set_role_ne now new old owner first (λ x. differ (sym x))
              ∙ last_seat-set_role_self now old admin seats o q in
            let here = lookup-insert_self account (set_role now new owner first) w.seats in
            record {
              old_seat = o;
              new_seat = n;
              old_found = q;
              new_found = p;
              was_owner = ground arith;
              demoted = ground (arith, here, o');
              promoted = ground (arith, here, n');
            }
      ]
    ]

preflight-ok :
    (c : Setup) (r : Transfer) (w w' : Accounts)
    → preflight c r w ≡ (ok tt, w')
    → (w' ≡ w)
      × (r.requester ≢ r.target)
      × ((seat : Seat) × (first_seat r.requester (seats_of r.account_id w) ≡ some seat)
          × (is_owner_role seat.role ≡ true))
unfolding preflight assert_owner find_seat ◌>>=◌
preflight-ok c r w w' e = elim (Option-cases (first_seat r.requester (seats_of r.account_id w))) [
  | inl q ↦ absurd (ground arith)
  | inr (seat, q) ↦
      (ground arith, λ same. ground (arith, eq_iff r.requester r.target), (seat, q, ground arith))
]

pub send-ok :
    (c : Setup) (event : SeatEvent) (w w' : Accounts)
    → send c event w ≡ (ok tt, w')
    → (w'.seats ≡ w.seats) × (w'.sent ≡ event ∷ w.sent)
unfolding send
send-ok c event w w' e = ground arith

swap_owner-sent :
    (now : ℕ) (account old new : String) (w : Accounts)
    → (swap_owner now account old new w).1.sent ≡ w.sent
unfolding swap_owner
swap_owner-sent now account old new w = ground arith

-- A transfer of ownership succeeds only for a requester that differs from the target and holds an
-- owner's seat. The target then holds the owner's seat and the requester an admin's, and the event
-- of this transfer is the one that was added.
pub transfer_ownership-Swapped :
    (c : Setup) (r : Transfer) (w w' : Accounts)
    → transfer_ownership c r w ≡ (ok tt, w')
    → (r.requester ≢ r.target)
      × ((seat : Seat) × (first_seat r.requester (seats_of r.account_id w) ≡ some seat)
          × (is_owner_role seat.role ≡ true))
      × Swapped c.written_at r.account_id r.requester r.target w w'
      × (w'.sent ≡ ownership_transferred r.account_id r.requester r.target ∷ w.sent)
unfolding transfer_ownership
transfer_ownership-Swapped c r w w' e = >>=-elim _ _ e λ _ w₁ q₁ e₁. >>=-elim _ _ e₁ λ _ w₂ q₂ e₂.
    let (same, differ, was) = preflight-ok c r w w₁ q₁ in
    let swapped : Swapped c.written_at r.account_id r.requester r.target w w₂ =
      rw same at
        (swap_owner-Swapped c.written_at r.account_id r.requester r.target w₁ w₂ differ q₂) in
    let (seats, sent) =
      send-ok c (ownership_transferred r.account_id r.requester r.target) w₂ w' e₂ in
    let silent = swap_owner-sent c.written_at r.account_id r.requester r.target w₁ in
    (
      differ,
      was,
      record {
        old_seat = swapped.old_seat;
        new_seat = swapped.new_seat;
        old_found = swapped.old_found;
        new_found = swapped.new_found;
        was_owner = swapped.was_owner;
        demoted =
            ap (λ d. last_seat r.requester (or_else [] (lookup r.account_id d))) seats
            ∙ swapped.demoted;
        promoted =
            ap (λ d. last_seat r.target (or_else [] (lookup r.account_id d))) seats
            ∙ swapped.promoted;
      },
      sent
          ∙ ap (λ es. ownership_transferred r.account_id r.requester r.target ∷ es)
              (sym (ap (λ p. p.1.sent) q₂) ∙ silent ∙ ap (λ v. v.sent) same),
    )
