-- ===== src/Entitlements/Removal.antt =====
-- RemoveSeat of application/account_service.go: the seats before and after.
use identity_platform_go.Base.{
  suc, ◌≡◌, ◌≢◌, true, some, String, List, [], ◌∷◌, ok, >>=-elim, fail_if-ok, arith, Option-cases,
  Bool-cases, eq_iff, inl, inr, ◌==◌, ap, sym, ◌∙◌, length, or_else,
}
use identity_platform_go.Base.Dict.{lookup, lookup-insert_self}
use identity_platform_go.Entitlements.Seats.{
  Seat, is_owner_role, Accounts, Setup, Removal, seats_of, first_seat, without_seat, assert_owner,
  find_seat, remove_seat, remove_seat_row, seat_removed,
}
use identity_platform_go.Entitlements.Ownership.{send-ok}

without_seat-first_seat :
    (user other : String) (xs ys : List Seat)
    → without_seat user xs ≡ some ys
    → user ≢ other
    → (first_seat other ys ≡ first_seat other xs) × (suc (length ys) ≡ length xs)
unfolding without_seat first_seat
without_seat-first_seat user other [] ys h differ = absurd (ground arith)
without_seat-first_seat user other (x ∷ xs) ys h differ = elim (Bool-cases (x.user_id == user)) [
  | inl q ↦ ground (arith, eq_iff x.user_id user, eq_iff x.user_id other)
  | inr q ↦ elim (Option-cases (without_seat user xs)) [
    | inl p ↦ absurd (ground arith)
    | inr (ts, p) ↦
        let (rest, count) = without_seat-first_seat user other xs ts p differ in
        ground (arith, rest, count)
  ]
]

remove_seat_row-ok :
    (account user other : String) (w w' : Accounts)
    → remove_seat_row account user w ≡ (ok tt, w')
    → user ≢ other
    → (first_seat other (seats_of account w') ≡ first_seat other (seats_of account w))
      × (suc (length (seats_of account w')) ≡ length (seats_of account w))
unfolding remove_seat_row
remove_seat_row-ok account user other w w' e differ =
    elim (Option-cases (without_seat user (seats_of account w))) [
      | inl p ↦ absurd (ground arith)
      | inr (ts, p) ↦
          let (rest, count) = without_seat-first_seat user other (seats_of account w) ts p differ in
          let here = lookup-insert_self account ts w.seats in
          (ground (arith, rest, here), ground (arith, count, here))
    ]

assert_owner-ok :
    (account user : String) (w w' : Accounts)
    → assert_owner account user w ≡ (ok tt, w')
    → (w' ≡ w)
      × ((seat : Seat) × (first_seat user (seats_of account w) ≡ some seat)
          × (is_owner_role seat.role ≡ true))
unfolding assert_owner
assert_owner-ok account user w w' e = elim (Option-cases (first_seat user (seats_of account w))) [
  | inl q ↦ absurd (ground arith)
  | inr (seat, q) ↦ (ground arith, (seat, q, ground arith))
]

find_seat-same :
    (account user : String) (w w' : Accounts) (s : Seat)
    → find_seat account user w ≡ (ok s, w')
    → w' ≡ w
unfolding find_seat
find_seat-same account user w w' s e = ground arith

removal-result :
    (r : Removal) (w w₂ w₄ w₅ w' : Accounts) (seat : Seat)
    → r.requester ≢ r.target
    → w₂ ≡ w
    → first_seat r.requester (seats_of r.account_id w₂) ≡ some seat
    → is_owner_role seat.role ≡ true
    → w₄ ≡ w
    → first_seat r.requester (seats_of r.account_id w₅)
      ≡ first_seat r.requester (seats_of r.account_id w₄)
    → suc (length (seats_of r.account_id w₅)) ≡ length (seats_of r.account_id w₄)
    → w'.seats ≡ w₅.seats
    → (r.requester ≢ r.target)
      × ((seat : Seat) × (is_owner_role seat.role ≡ true)
          × (first_seat r.requester (seats_of r.account_id w) ≡ some seat)
          × (first_seat r.requester (seats_of r.account_id w') ≡ some seat))
      × (suc (length (seats_of r.account_id w')) ≡ length (seats_of r.account_id w))
removal-result r w w₂ w₄ w₅ w' seat differ p held is q kept count after =
    let v = ap (λ d. or_else [] (lookup r.account_id d)) after in
    let held' : first_seat r.requester (seats_of r.account_id w) ≡ some seat = rw p at held in
    (
      differ,
      (
        seat,
        is,
        held',
        ap (first_seat r.requester) v
            ∙ kept
            ∙ ap (λ a. first_seat r.requester (seats_of r.account_id a)) q
            ∙ held',
      ),
      ap (λ l. suc (length l)) v ∙ count ∙ ap (λ a. length (seats_of r.account_id a)) q,
    )

-- A removal succeeds only for an owner who is not the target. One seat less is left on the account,
-- and the owner who asked still holds the same seat, so that the account keeps an owner.
pub remove_seat_keeps_owner :
    (c : Setup) (r : Removal) (w w' : Accounts)
    → remove_seat c r w ≡ (ok tt, w')
    → (r.requester ≢ r.target)
      × ((seat : Seat) × (is_owner_role seat.role ≡ true)
          × (first_seat r.requester (seats_of r.account_id w) ≡ some seat)
          × (first_seat r.requester (seats_of r.account_id w') ≡ some seat))
      × (suc (length (seats_of r.account_id w')) ≡ length (seats_of r.account_id w))
unfolding remove_seat
remove_seat_keeps_owner c r w w' e = >>=-elim _ _ e λ _ w₁ q₁ e₁. >>=-elim _ _ e₁ λ _ w₂ q₂ e₂.
    >>=-elim _ _ e₂ λ _ w₃ q₃ e₃. >>=-elim _ _ e₃ λ removed w₄ q₄ e₄. >>=-elim _ _ e₄ λ _ w₅ q₅ e₅.
      let (test, same₂) = fail_if-ok (r.requester == r.target) _ w₁ w₂ q₂ in
      let differ : r.requester ≢ r.target = λ x. ground (arith, eq_iff r.requester r.target) in
      let (same₃, (seat, held, is)) = assert_owner-ok r.account_id r.requester w₂ w₃ q₃ in
      let same₄ = find_seat-same r.account_id r.target w₃ w₄ removed q₄ in
      let same : w₄ ≡ w = same₄ ∙ same₃ ∙ same₂ ∙ sym (ap (λ p. p.1) q₁) in
      let before : w₂ ≡ w = same₂ ∙ sym (ap (λ p. p.1) q₁) in
      let (kept, count) =
        remove_seat_row-ok r.account_id r.target r.requester w₄ w₅ q₅ (λ x. differ (sym x)) in
      let (after, _) =
        send-ok c (seat_removed r.account_id r.requester r.target removed) w₅ w' e₅ in
      removal-result r w w₂ w₄ w₅ w' seat differ before held is same kept count after
