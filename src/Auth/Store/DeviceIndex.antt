-- ===== src/Auth/Store/DeviceIndex.antt =====
-- The invariants of the device repository's two maps.
use identity_platform_go.Base.{ℕ, refl, ◌≡◌, String, arith, ◌⊎◌, inl, inr, Result-cases, ok, false}
use identity_platform_go.Base.Dict.{
  insert, erase, Entries, Entries-insert, Entries-erase, lookup-insert_self,
}
use identity_platform_go.Auth.Domain.{DeviceAuthorization, device_expired, approved, DeviceStatus}
use identity_platform_go.Auth.Store.Devices.{
  Devices, save_device, find_by_device_code, find_by_user_code, approve, deny, consume_device,
  write_device,
}

-- Each record is stored under its own device code.
abbrev pub IsKeyed : Devices → Type 0
IsKeyed r = Entries (λ k a. a.device_code ≡ k) r.by_device_code

-- How an operation leaves the first map: as it was, with a record written under its own code, or
-- with a record less.
abbrev Touched : Devices → Devices → Type 0
Touched r r' =
    (r'.by_device_code ≡ r.by_device_code)
    ⊎ ((a : DeviceAuthorization) × (r'.by_device_code ≡ insert a.device_code a r.by_device_code))
    ⊎ ((k : String) × (r'.by_device_code ≡ erase k r.by_device_code))

Touched-IsKeyed : (r r' : Devices) → Touched r r' → IsKeyed r → IsKeyed r'
Touched-IsKeyed r r' (inl q) h = rw q h
Touched-IsKeyed r r' (inr (inl (a, q))) h =
    rw q (Entries-insert (λ k b. b.device_code ≡ k) a.device_code a r.by_device_code h refl)
Touched-IsKeyed r r' (inr (inr (k, q))) h =
    rw q (Entries-erase (λ j b. b.device_code ≡ j) k r.by_device_code h)

approve-Touched :
    (now : ℕ) (uc subject : String) (r : Devices) → Touched r (approve now uc subject r).1
unfolding approve write_device
approve-Touched now uc subject r = elim (Result-cases (find_by_user_code now uc r)) [
  | inr (_, q) ↦ inl (ground arith)
  | inl (a, q) ↦ inr (inl (record a { status = approved; subject = subject }, ground arith))
]

deny-Touched : (now : ℕ) (uc : String) (r : Devices) → Touched r (deny now uc r).1
unfolding deny write_device
deny-Touched now uc r = elim (Result-cases (find_by_user_code now uc r)) [
  | inr (_, q) ↦ inl (ground arith)
  | inl (a, q) ↦ inr (inl (record a { status = DeviceStatus.denied }, ground arith))
]

consume_device-Touched :
    (now : ℕ) (dc : String) (r : Devices) → Touched r (consume_device now dc r).1
unfolding consume_device
consume_device-Touched now dc r = elim (Result-cases (find_by_device_code now dc r)) [
  | inr (_, q) ↦ inl (ground arith)
  | inl (a, q) ↦ inr (inr (dc, ground arith))
]

-- Every operation that changes the device repository keeps each record under its own device code.
pub device_operations-IsKeyed :
    (now : ℕ) (code subject : String) (a : DeviceAuthorization) (r : Devices)
    → IsKeyed r
    → IsKeyed (save_device a r)
      × IsKeyed (approve now code subject r).1
      × IsKeyed (deny now code r).1
      × IsKeyed (consume_device now code r).1
unfolding save_device
device_operations-IsKeyed now code subject a r h = (
  Entries-insert (λ k b. b.device_code ≡ k) a.device_code a r.by_device_code h refl,
  Touched-IsKeyed r (approve now code subject r).1 (approve-Touched now code subject r) h,
  Touched-IsKeyed r (deny now code r).1 (deny-Touched now code r) h,
  Touched-IsKeyed r (consume_device now code r).1 (consume_device-Touched now code r) h,
)

-- A record that was just saved is approved through its user code, as long as it is not expired, and
-- the poller then finds it, under its device code, approved for the subject.
pub approve-save_device :
    (now later : ℕ) (subject : String) (a : DeviceAuthorization) (r : Devices)
    → device_expired a now ≡ false
    → device_expired a later ≡ false
    → ((approve now a.user_code subject (save_device a r)).0 ≡ ok tt)
      × (find_by_device_code later a.device_code
            (approve now a.user_code subject (save_device a r)).1
          ≡ ok (record a { status = approved; subject = subject }))
unfolding approve save_device write_device find_by_user_code find_by_device_code device_expired
approve-save_device now later subject a r h h' =
    let found = lookup-insert_self a.user_code a.device_code r.user_code_index in
    let stored = lookup-insert_self a.device_code a r.by_device_code in
    let again =
      lookup-insert_self a.device_code (record a { status = approved; subject = subject })
        (save_device a r).by_device_code in
    (ground (arith, found, stored), ground (arith, found, stored, again))
