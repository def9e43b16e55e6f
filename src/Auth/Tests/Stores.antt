-- ===== src/Auth/Tests/Stores.antt =====
-- The repositories, introspection and the round trip of tokens.
use identity_platform_go.Base.{
  ◌≡◌, refl, ok, err, String, [], ◌∷◌, ◌≤◌, ◌<◌, false, some, none, ◌⊎◌, ℕ, ne_of_test, ◌*◌, All,
  Bool, arith, if◌then◌else◌,
}
use Prim.Native.Char.{code}
use identity_platform_go.Base.Words.{IsField, is_space}
use identity_platform_go.Base.Dict.{lookup}
use identity_platform_go.Auth.Domain.{Token, no_token, approved, device_expired, replayed}
use identity_platform_go.Auth.World.{Env, second}
use identity_platform_go.Auth.Store.Devices.{
  save_device, approve, deny, consume_device, find_by_device_code,
}
use identity_platform_go.Auth.Store.DeviceIndex.{
  IsKeyed, device_operations-IsKeyed, approve-save_device,
}
use identity_platform_go.Auth.Store.{mark_assertion, mark_proof, sweep}
use identity_platform_go.Auth.Store.Replay.{assertions, proofs, replays_refused}
use identity_platform_go.Auth.Store.Single.{saves, consumes, wins, stores}
use identity_platform_go.Auth.Store.Instances.{
  codes, devices, challenges, pushed_requests, redeemed_once,
}
use identity_platform_go.Auth.Tokens.{generate, validate_hs256, claims_rs256, claims_hs256}
use identity_platform_go.Auth.Tokens.RoundTrip.{
  Verifies, encoded, on_wire, whole, received_hs256, validate_hs256-generate,
}
use identity_platform_go.Auth.TokenService.{introspect, revoke, inactive, described}
use identity_platform_go.Auth.TokenService.Revocation.{Active, introspect-Active, revoke_lem}
use identity_platform_go.Auth.Tests.Setting.{env, world, device}

redeemed_once_example :
    (wins codes "c" (consumes 0 "c" ∷ consumes 1 "c" ∷ []) world.codes ≤ 1)
    × (wins challenges "c" (consumes 0 "c" ∷ []) world.challenges ≤ 0)
    × (wins pushed_requests "c" [] world.pushed ≤ 0)
    × (wins devices "c" (saves device ∷ consumes 1 "d" ∷ consumes 1 "d" ∷ []) world.devices ≤ 0)
unfolding stores lookup
redeemed_once_example =
    redeemed_once "c" (consumes 0 "c" ∷ consumes 1 "c" ∷ []) (consumes 0 "c" ∷ []) []
      (saves device ∷ consumes 1 "d" ∷ consumes 1 "d" ∷ []) world.codes world.challenges
      world.pushed world.devices

device_operations-IsKeyed_example :
    IsKeyed (save_device device world.devices)
    × IsKeyed (approve 1 "u" "bob" world.devices).1
    × IsKeyed (deny 1 "u" world.devices).1
    × IsKeyed (consume_device 1 "u" world.devices).1
device_operations-IsKeyed_example =
    device_operations-IsKeyed 1 "u" "bob" device world.devices (refl, tt)

live : (n : ℕ) → n ≡ 1 → device_expired device n ≡ false
unfolding device_expired
live n e = rw e refl

approve-save_device_example :
    ((approve 1 "u" "bob" (save_device device world.devices)).0 ≡ ok tt)
    × (find_by_device_code 1 "d" (approve 1 "u" "bob" (save_device device world.devices)).1
        ≡ ok (record device { status = approved; subject = "bob" }))
approve-save_device_example =
    approve-save_device 1 1 "bob" device world.devices (live 1 refl) (live 1 refl)

introspect-Active_example :
    ((a : Active env "signed" world) × ((introspect env "signed" world).0
        ≡ described a.token a.stored))
    ⊎ (((introspect env "signed" world).0 ≡ inactive) × (Active env "signed" world → ⊥))
introspect-Active_example = introspect-Active env "signed" world

revoke_lem_example :
    ((introspect env "old" (revoke "old" world)).0 ≡ inactive)
    × (lookup "old" (revoke "old" world).refresh_tokens ≡ none)
    × ((◌≡◌ {A = String} "old" "x")
        ⊎ ((lookup "x" (revoke "old" world).tokens ≡ lookup "x" world.tokens)
            × (lookup "x" (revoke "old" world).refresh_tokens ≡ lookup "x" world.refresh_tokens)))
revoke_lem_example = revoke_lem env "old" "x" world

abbrev spoken : Token
spoken = record no_token {
  id = "t";
  client_id = "web";
  subject = "ann";
  scopes = "read" ∷ "write" ∷ [];
  act = record { sub = "web"; actor_type = "agent"; agent_id = "web"; client_id = "web" } ∷ [];
  expires_at = 100 * second;
}

-- The encoder leaves the spaces out.
unfoldable compact : String → String
compact String.[] = ""
compact (String.◌∷◌ c s) =
    let rest = compact s in if is_space (code c) then rest else String.◌∷◌ c rest

-- The same token with a detail that has a space in it
abbrev detailed : Token
detailed = record spoken {
  authorization_details = record { kind = "mcp_tool"; raw = "{\"type\": \"mcp_tool\"}" } ∷ [];
}

-- A key whose tokens parse to the claims of `detailed` or `spoken`, with either algorithm.
abbrev keyed : Bool → Env
keyed rs256 = record env {
  rs256 = rs256;
  json_type = λ raw. "mcp_tool";
  parse_rs256 = λ t raw. some (encoded compact (claims_rs256 env detailed));
  parse_hs256_issuer = λ t i raw. some (on_wire (claims_hs256 env spoken));
}

spoken_words : All IsField spoken.scopes
unfolding is_space
spoken_words = (
  (ne_of_test refl, (refl, (refl, (refl, (refl, tt))))),
  ((ne_of_test refl, (refl, (refl, (refl, (refl, (refl, tt)))))), tt),
)

compacted : compact "{\"type\": \"mcp_tool\"}" ≡ "{\"type\":\"mcp_tool\"}"
unfolding compact is_space
compacted = refl

keyed_hs256 :
    Verifies
      (keyed false).sign_hs256
      (λ at. (keyed false).parse_hs256_issuer at "idp")
      (claims_hs256 (keyed false) spoken)
unfolding claims_hs256
keyed_hs256 = record { parsed = λ raw now s l. refl }

made_hs256 : generate (keyed false) spoken ≡ some "signed"
unfolding generate
made_hs256 = refl

early : 5 < whole (100 * second)
early = omega arith

validate_hs256-generate_example :
    validate_hs256 (keyed false) "signed" 5 ≡ ok (received_hs256 (keyed false) spoken "signed")
validate_hs256-generate_example =
    validate_hs256-generate (keyed false) spoken "signed" 5 keyed_hs256 refl refl made_hs256
      spoken_words early

replays_refused_example :
    ((mark_assertion 3 "j" 20 (assertions ((2, "i", 5) ∷ []) (mark_assertion 1 "j" 10 []).1)).0
      ≡ err replayed)
    × ((mark_proof 3 "j" 20 (proofs ((2, "i", 5) ∷ []) (mark_proof 1 "j" 10 []).1)).0
        ≡ err replayed)
unfolding mark_proof sweep mark_assertion lookup
replays_refused_example =
    replays_refused 1 3 "j" 10 20 ((2, "i", 5) ∷ []) [] [] refl refl (omega arith, tt) (omega arith)
