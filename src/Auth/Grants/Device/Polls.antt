-- ===== src/Auth/Grants/Device/Polls.antt =====
-- DeviceCodeStrategy: the answer of a poll against the stored request.
use identity_platform_go.Base.{
  is_empty, err, suc, false, ◌⊎◌, inl, inr, ◌>>=◌, >>=-elim, pure-ok, ℕ, ◌≡◌, true, false, none,
  some, String, ok, arith, ◌∙◌, ap, eq_iff,
}
use identity_platform_go.Base.Words.{fields}
use identity_platform_go.Base.Dict.{lookup, Entries-lookup}
use identity_platform_go.Auth.Domain.{
  device_poll, authorization_pending, access_denied, pending, denied, Client, DeviceAuthorization,
  approved, device_expired, has_grant_type, grant_device_code,
}
use identity_platform_go.Auth.Requests.{GrantRequest, GrantResponse}
use identity_platform_go.Auth.World.{Env, World, now}
use identity_platform_go.Auth.Store.Devices.{Devices, find_by_device_code, consume_device}
use identity_platform_go.Auth.Store.DeviceIndex.{IsKeyed}
use identity_platform_go.Auth.Store.Instances.{consume_device-ok}
use identity_platform_go.Auth.Clients.{authenticate}
use identity_platform_go.Auth.Tokens.Issue.{issue_access-ok, issue_refresh-ok, refresh_record}
use identity_platform_go.Auth.Tokens.Steps.{generate_id-world, now-ok}
use identity_platform_go.Auth.Grants.Device.{
  validate_device_client, find_owned, redeem_device, device_token, device_response,
  issue_for_approved, resolve_status, poll_device,
}

validate_device_client-ok :
    (req : GrantRequest) (w w' : World) (c : Client)
    → validate_device_client req w ≡ (ok c, w')
    → (lookup req.client_id w.clients ≡ some c)
      × (c.secret ≡ req.client_secret)
      × (has_grant_type c grant_device_code ≡ true)
      × (w' ≡ w)
unfolding validate_device_client authenticate ◌>>=◌
validate_device_client-ok req w w' c e = ground (arith, eq_iff c.secret req.client_secret)

find_owned-ok :
    (env : Env) (dc id : String) (w w' : World) (a : DeviceAuthorization)
    → find_owned env dc id w ≡ (ok a, w')
    → (lookup dc w.devices.by_device_code ≡ some a)
      × (a.client_id ≡ id)
      × (w' ≡ record w { readings = suc w.readings })
unfolding find_owned now ◌>>=◌ find_by_device_code
find_owned-ok env dc id w w' a e = ground (arith, eq_iff a.client_id id)

redeem_device-ok :
    (env : Env) (dc : String) (w w' : World) (a : DeviceAuthorization)
    → redeem_device env dc w ≡ (ok a, w')
    → ((consume_device (env.clock w.readings) dc w.devices).0 ≡ ok a)
      × (w' ≡ record w {
        readings = suc w.readings;
        devices = (consume_device (env.clock w.readings) dc w.devices).1;
      })
unfolding redeem_device now ◌>>=◌
redeem_device-ok env dc w w' a e = ground arith

-- What the tokens of an approved device request are, which is taken out at the clock's reading `n`.
pub record DeviceIssued (env : Env) (client : Client) (dc : String) (r : Devices) (n : ℕ)
    (w' : World) (resp : GrantResponse) : Type 0 where
  pub request : DeviceAuthorization
  pub token_id : String
  pub refresh_id : String
  pub saved : lookup dc r.by_device_code ≡ some request
  pub live : device_expired request (env.clock n) ≡ false
  pub spent : lookup dc w'.devices.by_device_code ≡ none
  pub access :
      lookup resp.access_token w'.tokens
      ≡ some (record (device_token env client request (env.clock (suc n)) token_id) {
        raw = resp.access_token;
      })
  pub refresh :
      lookup resp.refresh_token w'.refresh_tokens
      ≡ some (
          refresh_record env client.id request.subject
            (fields request.scope)
            (env.clock (suc n))
            resp.refresh_token
            refresh_id)

issue_for_approved-ok :
    (env : Env) (dc : String) (client : Client) (w w' : World) (resp : GrantResponse)
    → issue_for_approved env dc client w ≡ (ok resp, w')
    → DeviceIssued env client dc w.devices w.readings w' resp
unfolding issue_for_approved
issue_for_approved-ok env dc client w w' resp e = >>=-elim _ _ e λ a w₁ q₁ e₁.
    >>=-elim _ _ e₁ λ at w₂ q₂ e₂. >>=-elim _ _ e₂ λ id w₃ q₃ e₃. >>=-elim _ _ e₃ λ raw w₄ q₄ e₄.
      >>=-elim _ _ e₄ λ new w₅ q₅ e₅.
        let (redeemed, devices) = redeem_device-ok env dc w w₁ a q₁ in
        let (found, live, gone) =
          consume_device-ok (env.clock w.readings) dc w.devices a redeemed in
        let (p₁, p₂) = now-ok env w₁ w₂ at q₂ in
        let timed : at ≡ env.clock (suc w.readings) = p₁ ∙ ap (λ x. env.clock x.readings) devices in
        let p₃ = generate_id-world env w₂ in
        let (_, p₄, stored) = issue_access-ok env (device_token env client a at id) w₃ w₄ raw q₄ in
        let (refresh_id, _, p₅, stored') =
          issue_refresh-ok env client.id a.subject (fields a.scope) at w₄ w₅ new q₅ in
        let (r, b) = pure-ok (device_response env a raw new) resp w₅ w' e₅ in
        record {
          request = a;
          token_id = id;
          refresh_id = refresh_id;
          saved = found;
          live = live;
          spent = ground (arith, gone);
          access = ground arith;
          refresh = ground arith;
        }

-- What holds of a poll that answers `resp`.
pub record Polled (env : Env) (req : GrantRequest) (w w' : World) (resp : GrantResponse)
    : Type 0 where
  pub client : Client
  pub issued : DeviceIssued env client req.device_code w.devices (suc w.readings) w' resp
  pub registered : lookup req.client_id w.clients ≡ some client
  pub secret : client.secret ≡ req.client_secret
  pub granted : has_grant_type client grant_device_code ≡ true
  pub own : issued.request.client_id ≡ client.id
  pub status : issued.request.status ≡ approved

resolve_status-ok :
    (env : Env) (a : DeviceAuthorization) (client : Client) (w w' : World) (resp : GrantResponse)
    → resolve_status env a client w ≡ (ok resp, w')
    → (a.status ≡ approved) × (issue_for_approved env a.device_code client w ≡ (ok resp, w'))
unfolding resolve_status
resolve_status-ok env a client w w' resp e = (ground arith, ground arith)

issued-request :
    (env : Env) (client : Client) (dc : String) (r : Devices) (n : ℕ) (w' : World)
    (resp : GrantResponse) (a : DeviceAuthorization)
    (issued : DeviceIssued env client dc r n w' resp)
    → lookup dc r.by_device_code ≡ some a
    → (a.client_id ≡ client.id) × (a.status ≡ approved)
    → (issued.request.client_id ≡ client.id) × (issued.request.status ≡ approved)
issued-request env client dc r n w' resp a issued found h =
    let known : lookup dc r.by_device_code ≡ some issued.request = issued.saved in ground arith

-- Where each device request is stored under its own code, a poll answers with tokens only to a
-- registered client with its secret and the grant, for a stored request of that client that the
-- user has approved and that is not expired at the poll's second reading of the clock. The tokens
-- stand for the approving subject with the request's scopes, their time is the next reading, and the
-- request is gone.
pub poll_device-Polled :
    (env : Env) (req : GrantRequest) (w w' : World) (resp : GrantResponse)
    → IsKeyed w.devices
    → poll_device env req w ≡ (ok resp, w')
    → Polled env req w w' resp
unfolding poll_device
poll_device-Polled env req w w' resp keyed e = >>=-elim _ _ e λ _ w₀ q₀ e₀.
    >>=-elim _ _ e₀ λ client w₁ q₁ e₁. >>=-elim _ _ e₁ λ a w₂ q₂ e₂.
      let same₀ : w₀ ≡ w = ground arith in
      let (known, secret, granted, same₁) = validate_device_client-ok req w₀ w₁ client q₁ in
      let (found, own, same₂) = find_owned-ok env req.device_code client.id w₁ w₂ a q₂ in
      let (status, issuing) = resolve_status-ok env a client w₂ w' resp e₂ in
      let (_, code, own_code) =
        Entries-lookup (λ k b. b.device_code ≡ k) req.device_code w.devices.by_device_code a keyed
          (rw (same₁ ∙ same₀) at found) in
      let code' : a.device_code ≡ req.device_code = own_code ∙ code in
      let before : w₁ ≡ w = same₁ ∙ same₀ in
      let same : w₂.devices ≡ w.devices = ap (λ v. v.devices) same₂ ∙ ap (λ v. v.devices) before in
      let read : w₂.readings ≡ suc w.readings =
        ap (λ v. v.readings) same₂ ∙ ap (λ v. suc v.readings) before in
      let issued : DeviceIssued env client req.device_code w.devices (suc w.readings) w' resp =
        rw (same, read) at
          (issue_for_approved-ok env req.device_code client w₂ w' resp (rw code' at issuing)) in
      let saved : lookup req.device_code w.devices.by_device_code ≡ some a =
        rw (same₁ ∙ same₀) at found in
      let (own', status') =
        issued-request env client req.device_code w.devices (suc w.readings) w' resp a issued saved
          (own, status) in
      record {
        client = client;
        issued = issued;
        registered = rw same₀ at known;
        secret = secret;
        granted = granted;
        own = own';
        status = status';
      }

find_owned-live :
    (env : Env) (dc id : String) (w : World) (a : DeviceAuthorization)
    → lookup dc w.devices.by_device_code ≡ some a
    → device_expired a (env.clock w.readings) ≡ false
    → a.client_id ≡ id
    → find_owned env dc id w ≡ (ok a, record w { readings = suc w.readings })
unfolding find_owned now ◌>>=◌ find_by_device_code
find_owned-live env dc id w a found live own = ground (arith, eq_iff a.client_id id)

validate_device_client-granted :
    (req : GrantRequest) (w : World) (c : Client)
    → lookup req.client_id w.clients ≡ some c
    → c.secret ≡ req.client_secret
    → has_grant_type c grant_device_code ≡ true
    → validate_device_client req w ≡ (ok c, w)
unfolding validate_device_client authenticate ◌>>=◌
validate_device_client-granted req w c known secret granted =
    ground (arith, eq_iff c.secret req.client_secret)

-- A client with its secret and the grant that polls for its own unexpired request is told
-- authorization_pending while the user has not decided and access_denied once the user has denied;
-- such a poll changes no repository.
pub poll_device_undecided :
    (env : Env) (req : GrantRequest) (w : World) (c : Client) (a : DeviceAuthorization)
    → is_empty req.device_code ≡ false
    → lookup req.client_id w.clients ≡ some c
    → c.secret ≡ req.client_secret
    → has_grant_type c grant_device_code ≡ true
    → lookup req.device_code w.devices.by_device_code ≡ some a
    → device_expired a (env.clock w.readings) ≡ false
    → a.client_id ≡ c.id
    → (a.status ≡ pending) ⊎ (a.status ≡ denied)
    → ((a.status ≡ pending)
        × (poll_device env req w
            ≡ (err (device_poll authorization_pending), record w { readings = suc w.readings })))
      ⊎ ((a.status ≡ denied)
          × (poll_device env req w
              ≡ (err (device_poll access_denied), record w { readings = suc w.readings })))
unfolding poll_device resolve_status ◌>>=◌
poll_device_undecided env req w c a asked known secret granted found live own status =
    let client = validate_device_client-granted req w c known secret granted in
    let owned = find_owned-live env req.device_code c.id w a found live own in
    elim status [ inl p ↦ inl (p, ground arith) | inr p ↦ inr (p, ground arith) ]
