-- ===== src/Auth/Grants/IdToken.antt =====
-- The OIDC side of AuthorizationCodeStrategy in grant_strategy.go: maybeIssueIDToken and the claim
-- helpers under it.
use identity_platform_go.Base.{
  ℕ, ◌+◌, ◌*◌, none, some, String, List, [], ◌∷◌, or_fail, pure, not, ◌||◌, if◌then◌else◌, contains,
  ltb,
}
use identity_platform_go.Auth.Domain.{AuthorizationCode, acr_password, signing_failed}
use identity_platform_go.Auth.World.{Env, M, IdTokenIssuance, UserClaims, second}

-- `resolvePlanIDs`
unfoldable pub resolve_plan_ids : Env → String → String → List String
resolve_plan_ids env subject account = elim env.user_plans [
  | none ↦ []
  | some fetch ↦ elim (fetch subject account) [ none ↦ [] | some ids ↦ ids ]
]

-- `time.Unix(s, 0)`, counted from Go's zero time
abbrev pub from_unix : ℕ → ℕ
from_unix s = (s + 62_135_596_800) * second

-- `applyEmailClaims`
unfoldable pub apply_email : UserClaims → IdTokenIssuance → IdTokenIssuance
apply_email c i = record i { email = c.email; email_verified = some c.email_verified }

-- `applyProfileClaims`
unfoldable pub apply_profile : UserClaims → IdTokenIssuance → IdTokenIssuance
apply_profile c i = record i {
  name = c.name;
  updated_at = if ltb 0 c.updated_at then from_unix c.updated_at else i.updated_at;
}

-- `populateProfileClaims`, with `shouldFetchUserClaims` and `fetchProfileClaims`
unfoldable pub populate_claims : Env → AuthorizationCode → IdTokenIssuance → IdTokenIssuance
unfolding apply_email apply_profile
populate_claims env code i =
    let email = contains code.scopes "email" in
    let profile = contains code.scopes "profile" in
    elim env.user_claims [
      | none ↦ i
      | some fetch ↦ if not (email || profile) then i else elim (fetch code.subject) [
        | none ↦ i
        | some c ↦
            let j = if email then apply_email c i else i in if profile then apply_profile c j else j
      ]
    ]

-- The issuance that `maybeIssueIDToken` builds before the profile claims.
unfoldable pub issuance : Env → String → AuthorizationCode → String → ℕ → String → IdTokenIssuance
unfolding resolve_plan_ids
issuance env client_id code raw at account = record {
  subject = code.subject;
  audience = client_id;
  nonce = code.nonce;
  at_hash = env.at_hash raw;
  auth_time = code.issued_at;
  amr = acr_password ∷ [];
  email = "";
  email_verified = none;
  name = "";
  updated_at = 0;
  active_account_id = account;
  plan_ids = resolve_plan_ids env code.subject account;
  issued_at = at;
  expires_at = at + env.id_token_ttl;
}

-- `maybeIssueIDToken`: the empty text means that there is no ID token.
unfoldable pub maybe_id_token : Env → String → AuthorizationCode → String → ℕ → String → M String
unfolding populate_claims issuance
maybe_id_token env client_id code raw at account = elim env.sign_id_token [
  | none ↦ pure ""
  | some sign ↦
      if not (contains code.scopes "openid")
      then pure ""
      else or_fail (sign (populate_claims env code (issuance env client_id code raw at account)))
          signing_failed
]
