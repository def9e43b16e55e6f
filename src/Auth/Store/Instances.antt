-- ===== src/Auth/Store/Instances.antt =====
-- The four memory repositories with a `Consume` meet the interface of Single.
use identity_platform_go.Base.{
  ℕ, ◌≡◌, false, ◌⊎◌, none, some, String, ok, arith, ◌≤◌, ◌+◌, List, if◌then◌else◌, ◌==◌,
}
use identity_platform_go.Base.Dict.{Dict, lookup, lookup-insert, lookup-erase, lookup-erase_self}
use identity_platform_go.Auth.Domain.{
  AuthorizationCode, code_expired, DeviceAuthorization, device_expired,
}
use identity_platform_go.Auth.Requests.{
  LoginChallenge, challenge_expired, PushedRequest, pushed_expired,
}
use identity_platform_go.Auth.Store.{
  save_code, consume_code, save_challenge, consume_challenge, save_pushed, consume_pushed,
}
use identity_platform_go.Auth.Store.Devices.{Devices, save_device, consume_device}
use identity_platform_go.Auth.Store.Single.{SingleUse, Call, wins, stores, held, wins-le-stores}

pub consume_code-ok :
    (now : ℕ) (k : String) (d : Dict AuthorizationCode) (c : AuthorizationCode)
    → (consume_code now k d).0 ≡ ok c
    → (lookup k d ≡ some c)
      × (code_expired c now ≡ false)
      × (lookup k (consume_code now k d).1 ≡ none)
unfolding consume_code
consume_code-ok now k d c e = ground (arith, lookup-erase_self k d)

pub consume_code-live :
    (now : ℕ) (k : String) (d : Dict AuthorizationCode) (c : AuthorizationCode)
    → lookup k d ≡ some c
    → code_expired c now ≡ false
    → (consume_code now k d).0 ≡ ok c
unfolding consume_code
consume_code-live now k d c e h = ground arith

pub consume_code-keeps :
    (now : ℕ) (j : String) (d : Dict AuthorizationCode) (k : String)
    → (lookup k (consume_code now j d).1 ≡ lookup k d) ⊎ (lookup k (consume_code now j d).1 ≡ none)
unfolding consume_code
consume_code-keeps now j d k = ground (arith, lookup-erase j k d)

pub lookup-save_code :
    (v : AuthorizationCode) (d : Dict AuthorizationCode) (k : String)
    → lookup k (save_code v d) ≡ (if v.code == k then some v else lookup k d)
unfolding save_code
lookup-save_code v d k = lookup-insert v.code k v d

abbrev pub codes : SingleUse (Dict AuthorizationCode) AuthorizationCode
codes = record {
  key = λ c. c.code;
  find = lookup;
  expired = code_expired;
  save = save_code;
  consume = consume_code;
  find-save = lookup-save_code;
  consume-ok = consume_code-ok;
  consume-live = consume_code-live;
  consume-keeps = consume_code-keeps;
}

pub consume_challenge-ok :
    (now : ℕ) (k : String) (d : Dict LoginChallenge) (c : LoginChallenge)
    → (consume_challenge now k d).0 ≡ ok c
    → (lookup k d ≡ some c)
      × (challenge_expired c now ≡ false)
      × (lookup k (consume_challenge now k d).1 ≡ none)
unfolding consume_challenge
consume_challenge-ok now k d c e = ground (arith, lookup-erase_self k d)

pub consume_challenge-live :
    (now : ℕ) (k : String) (d : Dict LoginChallenge) (c : LoginChallenge)
    → lookup k d ≡ some c
    → challenge_expired c now ≡ false
    → (consume_challenge now k d).0 ≡ ok c
unfolding consume_challenge
consume_challenge-live now k d c e h = ground arith

pub consume_challenge-keeps :
    (now : ℕ) (j : String) (d : Dict LoginChallenge) (k : String)
    → (lookup k (consume_challenge now j d).1 ≡ lookup k d)
      ⊎ (lookup k (consume_challenge now j d).1 ≡ none)
unfolding consume_challenge
consume_challenge-keeps now j d k = ground (arith, lookup-erase j k d)

pub lookup-save_challenge :
    (v : LoginChallenge) (d : Dict LoginChallenge) (k : String)
    → lookup k (save_challenge v d) ≡ (if v.id == k then some v else lookup k d)
unfolding save_challenge
lookup-save_challenge v d k = lookup-insert v.id k v d

abbrev pub challenges : SingleUse (Dict LoginChallenge) LoginChallenge
challenges = record {
  key = λ c. c.id;
  find = lookup;
  expired = challenge_expired;
  save = save_challenge;
  consume = consume_challenge;
  find-save = lookup-save_challenge;
  consume-ok = consume_challenge-ok;
  consume-live = consume_challenge-live;
  consume-keeps = consume_challenge-keeps;
}

pub consume_pushed-ok :
    (now : ℕ) (k : String) (d : Dict PushedRequest) (c : PushedRequest)
    → (consume_pushed now k d).0 ≡ ok c
    → (lookup k d ≡ some c)
      × (pushed_expired c now ≡ false)
      × (lookup k (consume_pushed now k d).1 ≡ none)
unfolding consume_pushed
consume_pushed-ok now k d c e = ground (arith, lookup-erase_self k d)

pub consume_pushed-live :
    (now : ℕ) (k : String) (d : Dict PushedRequest) (c : PushedRequest)
    → lookup k d ≡ some c
    → pushed_expired c now ≡ false
    → (consume_pushed now k d).0 ≡ ok c
unfolding consume_pushed
consume_pushed-live now k d c e h = ground arith

pub consume_pushed-keeps :
    (now : ℕ) (j : String) (d : Dict PushedRequest) (k : String)
    → (lookup k (consume_pushed now j d).1 ≡ lookup k d)
      ⊎ (lookup k (consume_pushed now j d).1 ≡ none)
unfolding consume_pushed
consume_pushed-keeps now j d k = ground (arith, lookup-erase j k d)

pub lookup-save_pushed :
    (v : PushedRequest) (d : Dict PushedRequest) (k : String)
    → lookup k (save_pushed v d) ≡ (if v.request_uri == k then some v else lookup k d)
unfolding save_pushed
lookup-save_pushed v d k = lookup-insert v.request_uri k v d

abbrev pub pushed_requests : SingleUse (Dict PushedRequest) PushedRequest
pushed_requests = record {
  key = λ c. c.request_uri;
  find = lookup;
  expired = pushed_expired;
  save = save_pushed;
  consume = consume_pushed;
  find-save = lookup-save_pushed;
  consume-ok = consume_pushed-ok;
  consume-live = consume_pushed-live;
  consume-keeps = consume_pushed-keeps;
}

pub consume_device-ok :
    (now : ℕ) (k : String) (d : Devices) (c : DeviceAuthorization)
    → (consume_device now k d).0 ≡ ok c
    → (lookup k d.by_device_code ≡ some c)
      × (device_expired c now ≡ false)
      × (lookup k (consume_device now k d).1.by_device_code ≡ none)
unfolding consume_device
consume_device-ok now k d c e = ground (arith, lookup-erase_self k d.by_device_code)

pub consume_device-live :
    (now : ℕ) (k : String) (d : Devices) (c : DeviceAuthorization)
    → lookup k d.by_device_code ≡ some c
    → device_expired c now ≡ false
    → (consume_device now k d).0 ≡ ok c
unfolding consume_device
consume_device-live now k d c e h = ground arith

pub consume_device-keeps :
    (now : ℕ) (j : String) (d : Devices) (k : String)
    → (lookup k (consume_device now j d).1.by_device_code ≡ lookup k d.by_device_code)
      ⊎ (lookup k (consume_device now j d).1.by_device_code ≡ none)
unfolding consume_device
consume_device-keeps now j d k = ground (arith, lookup-erase j k d.by_device_code)

pub lookup-save_device :
    (v : DeviceAuthorization) (d : Devices) (k : String)
    → lookup k (save_device v d).by_device_code
      ≡ (if v.device_code == k then some v else lookup k d.by_device_code)
unfolding save_device
lookup-save_device v d k = lookup-insert v.device_code k v d.by_device_code

abbrev pub devices : SingleUse Devices DeviceAuthorization
devices = record {
  key = λ c. c.device_code;
  find = (λ k d. lookup k d.by_device_code);
  expired = device_expired;
  save = save_device;
  consume = consume_device;
  find-save = lookup-save_device;
  consume-ok = consume_device-ok;
  consume-live = consume_device-live;
  consume-keeps = consume_device-keeps;
}

-- However the calls on the code repository are interleaved, an authorization code is redeemed at
-- most as often as it was saved (an entry that is there at the start counts as saved once).
code_redeemed_once :
    (k : String) (cs : List (Call AuthorizationCode)) (d : Dict AuthorizationCode)
    → wins codes k cs d ≤ stores codes k cs + held (lookup k d)
code_redeemed_once k cs d = wins-le-stores codes k cs d

-- However the calls on the challenge repository are interleaved, a login challenge is redeemed at
-- most as often as it was saved (an entry that is there at the start counts as saved once).
challenge_redeemed_once :
    (k : String) (cs : List (Call LoginChallenge)) (d : Dict LoginChallenge)
    → wins challenges k cs d ≤ stores challenges k cs + held (lookup k d)
challenge_redeemed_once k cs d = wins-le-stores challenges k cs d

-- However the calls of Save and Consume on the device repository are interleaved, a device code is
-- redeemed at most as often as it was saved (an entry at the start counts as saved once).
device_code_redeemed_once :
    (k : String) (cs : List (Call DeviceAuthorization)) (r : Devices)
    → wins devices k cs r ≤ stores devices k cs + held (lookup k r.by_device_code)
device_code_redeemed_once k cs r = wins-le-stores devices k cs r

-- However the calls of Save and Consume on the repositories of codes, of login challenges, of pushed
-- requests and of device requests are interleaved, each entry is redeemed at most as often as it was
-- saved (an entry that is there at the start counts as saved once).
pub redeemed_once :
    (k : String) (cs : List (Call AuthorizationCode)) (ls : List (Call LoginChallenge))
    (ps : List (Call PushedRequest)) (ds : List (Call DeviceAuthorization))
    (c : Dict AuthorizationCode) (l : Dict LoginChallenge) (p : Dict PushedRequest) (d : Devices)
    → (wins codes k cs c ≤ stores codes k cs + held (lookup k c))
      × (wins challenges k ls l ≤ stores challenges k ls + held (lookup k l))
      × (wins pushed_requests k ps p ≤ stores pushed_requests k ps + held (lookup k p))
      × (wins devices k ds d ≤ stores devices k ds + held (lookup k d.by_device_code))
redeemed_once k cs ls ps ds c l p d = (
  code_redeemed_once k cs c,
  challenge_redeemed_once k ls l,
  wins-le-stores pushed_requests k ps p,
  device_code_redeemed_once k ds d,
)
