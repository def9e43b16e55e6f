-- ===== src/Auth/Http/Messages.antt =====
-- What the handlers of handler.go read and write. net/http and encoding/json are parameters: a
-- request is what its accessors give.
use identity_platform_go.Base.{
  ℕ, Bool, false, Option, none, some, String, List, [], ◌∷◌, ok, err, Action, ◌==◌, if◌then◌else◌,
  is_empty, or_else,
}
use identity_platform_go.Base.Dict.{Dict, lookup}
use identity_platform_go.Base.Words.{fields}
use identity_platform_go.Auth.Domain.{Error}
use identity_platform_go.Auth.Requests.{GrantResponse}
use identity_platform_go.Auth.World.{World, M}
use identity_platform_go.Auth.Details.{Decoders}
use identity_platform_go.Auth.Dpop.{Proof}
use identity_platform_go.Auth.TokenService.{Introspection}

-- One request. `form` is `none` where ParseForm fails.
pub record HttpRequest : Type 0 where
  pub remote_addr : String
  pub query : Dict (List String)
  pub form : Option (Dict (List String))
  pub basic_auth : Option (String × String)
  pub authorization : String
  pub dpop : String
  pub tls : Bool
  pub forwarded_proto : String
  pub host : String
  pub path : String
  pub body : String

-- The body of POST /internal/issue-code, `issueCodeRequest`
pub record IssueCodeBody : Type 0 where
  pub login_challenge : String
  pub session_id : String
  pub consent_granted : List String

-- `deviceDecisionRequest`
pub record DeviceDecision : Type 0 where
  pub user_code : String
  pub subject : String
  pub approved : Bool

-- A response: its status and the part that depends on the request.
pub data Reply : Type 0 where
  oauth_error : ℕ → String → Reply
  plain_error : ℕ → String → Reply
  redirect_error : String → String → String → Reply
  to_sign_in : String → Reply
  pushed : String → ℕ → Reply
  code_issued : String → String → String → String → Reply
  tokens : GrantResponse → Reply
  introspected : Introspection → Reply
  revoked : Reply
  device_issued : String → String → ℕ → Reply
  decided : Bool → Reply

-- AuthorizeConfig, Handler and DeviceAuthorizationHandler as they are constructed.
pub record Site : Type 0 where
  pub authorize_wired : Bool
  pub issuer_wired : Bool
  pub issue_code_bearer : String
  pub challenge_ttl : ℕ
  pub par_ttl : ℕ
  pub issuer : String
  pub introspection_secret : String
  pub device_ttl : ℕ
  pub device_interval : ℕ
  pub device_token : String
  -- how many requests a window of how long admits
  pub max_requests : ℕ
  pub window : ℕ
  pub url_parses : String → Bool
  pub decode_base64 : String → Option String
  pub decode_issue : String → Option IssueCodeBody
  pub decode_decision : String → Option DeviceDecision
  -- eight random bytes to a user code, at the n-th draw
  pub random_bytes : ℕ → Option (List ℕ)
  pub json : Decoders
  -- a DPoP proof whose signature verifies under the key in its header
  pub parse_proof : String → Option Proof

-- The events token_introspected and token_revoked, as far as they depend on the request.
pub data HandlerEvent : Type 0 where
  token_introspected : String → Introspection → HandlerEvent
  token_revoked : String → String → HandlerEvent

-- A handler's state: the limiter's buckets, each with its count and its reset time.
pub record Server : Type 0 where
  pub world : World
  pub buckets : Dict (ℕ × ℕ)
  pub events : List HandlerEvent

abbrev pub Handler : Type 0 → Type 0
Handler = Action Server Reply

-- A call of a service: its error becomes a reply.
unfoldable pub call : {A : Type 0} → M A → (Error → Reply) → Handler A
call m reply s =
    let (r, w) = m s.world in
    (elim r [ ok a ↦ ok a | err e ↦ err (reply e) ], record s { world = w })

abbrev pub first : Option (List String) → String
first none = ""
first (some []) = ""
first (some (x ∷ _)) = x

-- `r.FormValue(key)` and `r.URL.Query().Get(key)`
unfoldable pub form_value : HttpRequest → String → String
form_value r key = first (lookup key (or_else [] r.form))

unfoldable pub query_value : HttpRequest → String → String
query_value r key = first (lookup key r.query)

-- `readPARClientCredentials`, which the other handlers repeat: Basic, or else the form
unfoldable pub credentials : HttpRequest → String × String
unfolding form_value
credentials r = or_else (form_value r "client_id", form_value r "client_secret") r.basic_auth

-- `parseScopes`
unfoldable pub parse_scopes : String → List String
parse_scopes s = if is_empty s then [] else fields s

-- The text before its last colon, `none` where it has none
unfoldable pub before_last_colon : String → Option String
before_last_colon String.[] = none
before_last_colon (String.◌∷◌ c s) = elim (before_last_colon s) [
  | some p ↦ some (String.◌∷◌ c p)
  | none ↦ if String.◌∷◌ c String.[] == ":" then some "" else none
]

-- `clientIP`
unfoldable pub client_ip : HttpRequest → String
unfolding before_last_colon
client_ip r = elim (before_last_colon r.remote_addr) [
  | none ↦ r.remote_addr
  | some p ↦ if is_empty p then r.remote_addr else p
]

-- `strings.HasPrefix(s, p)` and `s[len(p):]`
unfoldable pub strip_prefix : String → String → Option String
strip_prefix String.[] s = some s
strip_prefix (String.◌∷◌ c p) String.[] = none
strip_prefix (String.◌∷◌ c p) (String.◌∷◌ d s) =
    let rest = strip_prefix p s in
    if String.◌∷◌ c String.[] == String.◌∷◌ d String.[] then rest else none

-- `verifyServiceBearer`, `verifyDecisionServiceBearer` and the test of `authenticateWithSecret`
unfoldable pub has_bearer : String → HttpRequest → Bool
unfolding strip_prefix
has_bearer expected r = elim (strip_prefix "Bearer " r.authorization) [
  | none ↦ false
  | some presented ↦ presented == expected
]
