-- ===== src/Auth/Http/Flow/Handlers.antt =====
-- The handlers that make challenges and codes, and the others.
use identity_platform_go.Base.{
  arith, refl, subst, ◌≡◌, true, false, Bool, some, String, List, ok, inl, inr, Result-cases,
  is_empty, contains, not, if◌then◌else◌, ◌==◌, eq_iff, Subset,
}
use identity_platform_go.Base.Dict.{Dict, Entries-insert, lookup}
use identity_platform_go.Base.Keeps.{
  Keeps, keeps_rules, Keeps-if, Keeps-pure, Keeps-bind, Keeps-bind_with, Keeps-guard, Keeps-fail,
  Keeps-still, Keeps-or_fail, Keeps-lift, Keeps-modify,
}
use identity_platform_go.Auth.Domain.{Client, Error, AuthorizationDetail}
use identity_platform_go.Auth.Store.{save_challenge, find_client}
use identity_platform_go.Auth.World.{Env, World, M}
use identity_platform_go.Auth.Clients.{lookup_client}
use identity_platform_go.Auth.Grants.ClientCredentials.Proofs.{all_allowed-Subset}
use identity_platform_go.Auth.Http.Messages.{HttpRequest, Site, Server, Reply, call, parse_scopes}
use identity_platform_go.Auth.Http.Authorize.{
  AuthorizeRequest, redirect_uri_matches, scopes_are_subset, validate_params, new_challenge,
  persist_challenge, validate_and_persist, take_pushed, authorize_pushed, authorize_direct,
  authorize, save_pushed_request, push_authorize,
}
use identity_platform_go.Auth.Http.Flow.Backing.{
  IsBacked, BackedChallenge, BackedCode, IsGrounded, now-IsGrounded, draw-IsGrounded,
}
use identity_platform_go.Auth.Http.Flow.Calls.{lookup_client-IsGrounded, authenticate-IsGrounded}

-- The state of the repositories behind a server
abbrev pub Grounded : Dict Client → Server → Type 0
Grounded cs s = IsGrounded cs s.world

lookup_client-found :
    (id : String) (w : World) (c : Client)
    → (lookup_client id w).0 ≡ ok c
    → lookup id w.clients ≡ some c
unfolding lookup_client find_client
lookup_client-found id w c e = ground arith

redirect_uri_matches-contains :
    (registered : List String) (presented : String)
    → not (redirect_uri_matches registered presented) ≡ false
    → contains registered presented ≡ true
unfolding redirect_uri_matches
redirect_uri_matches-contains registered presented e = ground arith

-- The last two tests of `validateAuthorizeParams` have passed where no error code was chosen.
last_tests :
    (a b c d : Bool)
    → not (
        is_empty (
          if a
          then "unsupported_response_type"
          else if b
          then "invalid_request"
          else if c
          then "invalid_request"
          else if d
          then "invalid_scope"
          else ""))
      ≡ false
    → (c ≡ false) × (d ≡ false)
last_tests true b c d e = absurd (ground arith)
last_tests false true c d e = absurd (ground arith)
last_tests false false true d e = absurd (ground arith)
last_tests false false false true e = absurd (ground arith)
last_tests false false false false e = (refl, refl)

validate_params-passed :
    (req : AuthorizeRequest) (client : Client)
    → not (is_empty (validate_params req client)) ≡ false
    → (req.code_challenge_method ≡ "S256") × Subset (parse_scopes req.scope) client.scopes
unfolding validate_params scopes_are_subset
validate_params-passed req client e =
    let (method, scopes) =
      last_tests (not (req.response_type == "code")) (is_empty req.code_challenge)
        (not (req.code_challenge_method == "S256"))
        (not (scopes_are_subset (parse_scopes req.scope) client.scopes)) e in
    (
      ground (arith, eq_iff req.code_challenge_method "S256"),
      all_allowed-Subset client.scopes (parse_scopes req.scope) (ground arith),
    )

pub call-ok :
    {A : Type 0} (m : M A) (reply : Error → Reply) (s : Server) (a : A)
    → (call m reply s).0 ≡ ok a
    → (m s.world).0 ≡ ok a
unfolding call
call-ok m reply s a e = elim (Result-cases (m s.world).0) [
  | inl (b, q) ↦ ground arith
  | inr (x, q) ↦ absurd (ground arith)
]

module _ {cs : Dict Client} where
  pub call-Grounded :
      {A : Type 0} (m : M A) (reply : Error → Reply)
      → Keeps (IsGrounded cs) m
      → Keeps (Grounded cs) (call m reply)
  unfolding call
  call-Grounded m reply km = record { at = λ s h. km.at s.world h }

  pub ruleset handler_rules = (keeps_rules, call-Grounded, now-IsGrounded, draw-IsGrounded)

  persist_challenge-Grounded :
      (env : Env) (site : Site) (req : AuthorizeRequest) (details : List AuthorizationDetail)
      → IsBacked cs req.client_id req.redirect_uri req.code_challenge_method
          (parse_scopes req.scope)
      → Keeps (Grounded cs) (persist_challenge env site req details)
  unfolding persist_challenge save_challenge
  persist_challenge-Grounded env site req details backed =
      Keeps-bind _ _ (call-Grounded _ _ (draw-IsGrounded env)) λ id.
        Keeps-bind _ _ (call-Grounded _ _ (now-IsGrounded env)) λ at.
          Keeps-bind _ _
            (call-Grounded _ _ (
              Keeps-modify _ λ w h. (
                h.0,
                Entries-insert (BackedChallenge cs) id (new_challenge site req details id at)
                    w.challenges h.1 backed,
                h.2,
              )))
            λ _. Keeps-pure _

  validate_and_persist-Grounded :
      (env : Env) (site : Site) (req : AuthorizeRequest)
      → Keeps (Grounded cs) (validate_and_persist env site req)
  unfolding validate_and_persist
  validate_and_persist-Grounded env site req =
      Keeps-bind_with _ _ {Q = λ c. lookup req.client_id cs ≡ some c}
        (call-Grounded _ _ (lookup_client-IsGrounded req.client_id))
        (λ s c h e.
          subst (λ d. lookup req.client_id d ≡ some c) h.0
            (lookup_client-found req.client_id s.world c (call-ok _ _ s c e)))
        λ c registered. Keeps-guard _ _ _ λ redirect. Keeps-guard _ _ _ λ valid.
          Keeps-bind _ _ (Keeps-or_fail _ _) λ details.
            persist_challenge-Grounded env site req details (record {
              client = c;
              registered = registered;
              redirect = redirect_uri_matches-contains _ _ redirect;
              proof = (validate_params-passed req c valid).0;
              within = (validate_params-passed req c valid).1;
            })

  take_pushed-IsGrounded : (env : Env) (uri : String) → Keeps (IsGrounded cs) (take_pushed env uri)
  unfolding take_pushed
  take_pushed-IsGrounded env uri = Keeps-bind _ _ (now-IsGrounded env) λ t. record { at = λ w h. h }

  pub authorize-Grounded :
      (env : Env) (site : Site) (r : HttpRequest) → Keeps (Grounded cs) (authorize env site r)
  unfolding authorize authorize_pushed authorize_direct
  authorize-Grounded env site r =
      search (handler_rules, take_pushed-IsGrounded, validate_and_persist-Grounded) depth 20

  save_pushed-Grounded :
      (env : Env) (site : Site) (req : AuthorizeRequest)
      → Keeps (Grounded cs) (save_pushed_request env site req)
  unfolding save_pushed_request
  save_pushed-Grounded env site req = search handler_rules depth 20

  pub push_authorize-Grounded :
      (env : Env) (site : Site) (r : HttpRequest) → Keeps (Grounded cs) (push_authorize env site r)
  unfolding push_authorize
  push_authorize-Grounded env site r =
      search (handler_rules, authenticate-IsGrounded, save_pushed-Grounded) depth 20
