-- ===== src/Auth/Store/Devices.antt =====
-- memory/device_authorization_repo.go: two maps to one record. A stored record is shared by
-- pointer, so `Approve` and `Deny` change it where the first map holds it.
use identity_platform_go.Base.{ℕ, none, some, String, if◌then◌else◌, Result, ok, err}
use identity_platform_go.Base.Dict.{Dict, lookup, insert, erase}
use identity_platform_go.Auth.Domain.{
  DeviceAuthorization, device_expired, approved, denied, Error, device_not_found,
}

pub record Devices : Type 0 where
  pub by_device_code : Dict DeviceAuthorization
  pub user_code_index : Dict String

unfoldable pub save_device : DeviceAuthorization → Devices → Devices
save_device a r = record {
  by_device_code = insert a.device_code a r.by_device_code;
  user_code_index = insert a.user_code a.device_code r.user_code_index;
}

-- `lookupLocked`, which is also `FindByDeviceCode`
unfoldable pub find_by_device_code : ℕ → String → Devices → Result Error DeviceAuthorization
find_by_device_code now dc r = elim (lookup dc r.by_device_code) [
  | none ↦ err device_not_found
  | some a ↦ if device_expired a now then err device_not_found else ok a
]

-- `lookupByUserCodeLocked`, which is also `FindByUserCode`
unfoldable pub find_by_user_code : ℕ → String → Devices → Result Error DeviceAuthorization
unfolding find_by_device_code
find_by_user_code now uc r = elim (lookup uc r.user_code_index) [
  | none ↦ err device_not_found
  | some dc ↦ find_by_device_code now dc r
]

-- A change of the shared record `a`, which `Save` stored under its own device code.
unfoldable pub write_device : DeviceAuthorization → Devices → Devices
write_device a r = record r { by_device_code = insert a.device_code a r.by_device_code }

unfoldable pub approve : ℕ → String → String → Devices → Result Error (Unit {0}) × Devices
unfolding find_by_user_code write_device
approve now uc subject r = elim (find_by_user_code now uc r) [
  | err e ↦ (err e, r)
  | ok a ↦ (ok tt, write_device (record a { status = approved; subject = subject }) r)
]

unfoldable pub deny : ℕ → String → Devices → Result Error (Unit {0}) × Devices
unfolding find_by_user_code write_device
deny now uc r = elim (find_by_user_code now uc r) [
  | err e ↦ (err e, r)
  | ok a ↦ (ok tt, write_device (record a { status = denied }) r)
]

unfoldable pub consume_device : ℕ → String → Devices → Result Error DeviceAuthorization × Devices
unfolding find_by_device_code
consume_device now dc r = elim (find_by_device_code now dc r) [
  | err e ↦ (err e, r)
  | ok a ↦ (
    ok a,
    record {
      by_device_code = erase dc r.by_device_code;
      user_code_index = erase a.user_code r.user_code_index;
    },
  )
]
