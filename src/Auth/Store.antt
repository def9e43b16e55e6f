-- ===== src/Auth/Store.antt =====
-- services/auth-server/internal/adapters/outbound/memory: the maps behind the repositories. Each
-- method holds the repository's mutex from its first line to its last, so it is one step. A
-- method that changes the map returns the new one; `now` is what time.Now() returns in it.
pub mod Abstract
pub mod Devices
pub mod Single
pub mod Instances
pub mod Replay
pub mod DeviceIndex
use identity_platform_go.Base.{
  ℕ, Bool, Option, none, some, String, if◌then◌else◌, ltb, Result, ok, err, ◌==◌, not, List, [],
  ◌∷◌,
}
use identity_platform_go.Base.Dict.{Dict, lookup, insert, erase}
use identity_platform_go.Auth.Domain.{
  AuthorizationCode, code_expired, Error, code_not_found, challenge_not_found, replayed,
  pushed_request_not_found, token_not_found, refresh_token_not_found, RefreshToken, Token, Client,
  client_not_found,
}
use identity_platform_go.Auth.Requests.{
  LoginChallenge, challenge_expired, PushedRequest, pushed_expired,
}

-- `ClientRepository`
unfoldable pub find_client : String → Dict Client → Result Error Client
find_client id d = elim (lookup id d) [ none ↦ err client_not_found | some c ↦ ok c ]

unfoldable pub save_client : Client → Dict Client → Dict Client
save_client c d = insert c.id c d

-- `AuthorizationCodeRepository`
unfoldable pub save_code : AuthorizationCode → Dict AuthorizationCode → Dict AuthorizationCode
save_code c d = insert c.code c d

unfoldable pub consume_code :
    ℕ → String → Dict AuthorizationCode → Result Error AuthorizationCode × Dict AuthorizationCode
consume_code now raw d = elim (lookup raw d) [
  | none ↦ (err code_not_found, d)
  | some c ↦ (if code_expired c now then err code_not_found else ok c, erase raw d)
]

-- `TokenRepository`
unfoldable pub save_token : Token → Dict Token → Dict Token
save_token t d = insert t.raw t d

unfoldable pub find_token : String → Dict Token → Result Error Token
find_token raw d = elim (lookup raw d) [ none ↦ err token_not_found | some t ↦ ok t ]

unfoldable pub delete_token : String → Dict Token → Result Error (Unit {0}) × Dict Token
delete_token raw d = elim (lookup raw d) [
  | none ↦ (err token_not_found, d)
  | some _ ↦ (ok tt, erase raw d)
]

-- `RefreshTokenRepository`
unfoldable pub save_refresh : RefreshToken → Dict RefreshToken → Dict RefreshToken
save_refresh t d = insert t.raw t d

unfoldable pub find_refresh : String → Dict RefreshToken → Result Error RefreshToken
find_refresh raw d = elim (lookup raw d) [ none ↦ err refresh_token_not_found | some t ↦ ok t ]

unfoldable pub delete_refresh :
    String → Dict RefreshToken → Result Error (Unit {0}) × Dict RefreshToken
delete_refresh raw d = elim (lookup raw d) [
  | none ↦ (err refresh_token_not_found, d)
  | some _ ↦ (ok tt, erase raw d)
]

-- `LoginChallengeRepository`
unfoldable pub save_challenge : LoginChallenge → Dict LoginChallenge → Dict LoginChallenge
save_challenge c d = insert c.id c d

-- `Get` drops an expired challenge when it sees one.
unfoldable pub get_challenge :
    ℕ → String → Dict LoginChallenge → Result Error LoginChallenge × Dict LoginChallenge
get_challenge now id d = elim (lookup id d) [
  | none ↦ (err challenge_not_found, d)
  | some c ↦ if challenge_expired c now then (err challenge_not_found, erase id d) else (ok c, d)
]

unfoldable pub update_challenge :
    LoginChallenge → Dict LoginChallenge → Result Error (Unit {0}) × Dict LoginChallenge
update_challenge c d = elim (lookup c.id d) [
  | none ↦ (err challenge_not_found, d)
  | some _ ↦ (ok tt, insert c.id c d)
]

unfoldable pub consume_challenge :
    ℕ → String → Dict LoginChallenge → Result Error LoginChallenge × Dict LoginChallenge
consume_challenge now id d = elim (lookup id d) [
  | none ↦ (err challenge_not_found, d)
  | some c ↦ (if challenge_expired c now then err challenge_not_found else ok c, erase id d)
]

-- `PushedAuthorizationRequestRepository`
unfoldable pub save_pushed : PushedRequest → Dict PushedRequest → Dict PushedRequest
save_pushed p d = insert p.request_uri p d

unfoldable pub consume_pushed :
    ℕ → String → Dict PushedRequest → Result Error PushedRequest × Dict PushedRequest
consume_pushed now uri d = elim (lookup uri d) [
  | none ↦ (err pushed_request_not_found, d)
  | some p ↦ (if pushed_expired p now then err pushed_request_not_found else ok p, erase uri d)
]

-- `ClientAssertionReplayRepository.MarkUsed`
unfoldable pub mark_assertion : ℕ → String → ℕ → Dict ℕ → Result Error (Unit {0}) × Dict ℕ
mark_assertion now jti expires_at d = elim (lookup jti d) [
  | none ↦ (ok tt, insert jti expires_at d)
  | some exp ↦ if ltb now exp then (err replayed, d) else (ok tt, insert jti expires_at d)
]

-- The sweep of `DPoPProofRepository.MarkUsed`: it deletes each key whose time has passed.
unfoldable pub sweep : ℕ → Dict ℕ → Dict ℕ
sweep now [] = []
sweep now ((k, exp) ∷ d) = let rest = sweep now d in if ltb exp now then rest else (k, exp) ∷ rest

-- `DPoPProofRepository.MarkUsed`
unfoldable pub mark_proof : ℕ → String → ℕ → Dict ℕ → Result Error (Unit {0}) × Dict ℕ
unfolding mark_assertion
mark_proof now jti expires_at d = mark_assertion now jti expires_at (sweep now d)
