-- ===== src/Auth/Http/Flow.antt =====
-- The authorization-code flow across the handlers of handler.go and device_authorization.go: the
-- server's runs as sequences of requests, and what holds of every challenge and code in them.
pub mod Backing
pub mod Calls
pub mod Grants
pub mod Handlers
pub mod Codes
pub mod Endpoints
use identity_platform_go.Base.{refl}
use identity_platform_go.Base.{
  ◌≡◌, true, some, ok, arith, String, ap, sym, subst, ◌∙◌, contains, Subset, suc, Option, none,
}
use identity_platform_go.Base.Dict.{Dict, lookup, Entries-lookup}
use identity_platform_go.Auth.Domain.{Client, Token, AuthorizationCode}
use identity_platform_go.Auth.Requests.{GrantRequest, GrantResponse}
use identity_platform_go.Auth.Store.Instances.{consume_code-ok}
use identity_platform_go.Auth.World.{Env, World}
use identity_platform_go.Auth.Clients.Proofs.{authenticate_client_sound, authenticate_client-same}
use identity_platform_go.Auth.Grants.Saml.{Saml, saml_strategy}
use identity_platform_go.Auth.Grants.Code.{redeem_code, code_token}
use identity_platform_go.Auth.Grants.Code.Checks.{
  Stages, redeem-Stages, Matches, verify_match-Matches, consumed,
}
use identity_platform_go.Auth.Grants.Code.Redeem.{Issued, issue_tokens-Issued}
use identity_platform_go.Auth.Http.Flow.Calls.{authenticate_client-IsGrounded}
use identity_platform_go.Auth.Http.Flow.Backing.{BackedCode, IsBacked, IsGrounded}
use identity_platform_go.Auth.Http.Flow.Handlers.{
  Grounded, authorize-Grounded, push_authorize-Grounded,
}
use identity_platform_go.Auth.Http.Flow.Codes.{issue_code-Grounded}
use identity_platform_go.Auth.Http.Flow.Endpoints.{
  token-Grounded, introspect-Grounded, revoke-Grounded, device-Grounded, decision-Grounded,
}
use identity_platform_go.Auth.Http.Messages.{HttpRequest, Site, Server}
use identity_platform_go.Auth.Http.Authorize.{authorize, push_authorize}
use identity_platform_go.Auth.Http.IssueCode.{handle_issue_code}
use identity_platform_go.Auth.Http.Token.{handle_token}
use identity_platform_go.Auth.Http.Inspection.{handle_introspect, handle_revoke}
use identity_platform_go.Auth.Http.DeviceEndpoint.{post_device_authorization, post_decision}

-- One request that a handler serves, whatever the reply
pub data Step (env : Env) (site : Site) (saml : Saml) : Server → Server → Type 0 where
  authorizes : (r : HttpRequest) (s : Server) → Step env site saml s (authorize env site r s).1
  pushes : (r : HttpRequest) (s : Server) → Step env site saml s (push_authorize env site r s).1
  issues : (r : HttpRequest) (s : Server) → Step env site saml s (handle_issue_code env site r s).1
  grants :
      (r : HttpRequest) (s : Server)
      → Step env site saml s (handle_token env site (saml_strategy env saml) r s).1
  introspects :
      (r : HttpRequest) (s : Server) → Step env site saml s (handle_introspect env site r s).1
  revokes : (r : HttpRequest) (s : Server) → Step env site saml s (handle_revoke env site r s).1
  starts_device :
      (r : HttpRequest) (s : Server)
      → Step env site saml s (post_device_authorization env site r s).1
  decides : (r : HttpRequest) (s : Server) → Step env site saml s (post_decision env site r s).1

pub data Reach (env : Env) (site : Site) (saml : Saml) (s : Server) : Server → Type 0 where
  here : Reach env site saml s s
  next : {t u : Server} → Reach env site saml s t → Step env site saml t u → Reach env site saml s u

Step-Grounded :
    {env : Env} {site : Site} {saml : Saml} {cs : Dict Client} {s t : Server}
    → Step env site saml s t
    → Grounded cs s
    → Grounded cs t
Step-Grounded {env} {site} (authorizes r s) h = (authorize-Grounded env site r).at s h
Step-Grounded {env} {site} (pushes r s) h = (push_authorize-Grounded env site r).at s h
Step-Grounded {env} {site} (issues r s) h = (issue_code-Grounded env site r).at s h
Step-Grounded {env} {site} {saml} (grants r s) h = (token-Grounded env site saml r).at s h
Step-Grounded {env} {site} (introspects r s) h = (introspect-Grounded env site r).at s h
Step-Grounded {env} {site} (revokes r s) h = (revoke-Grounded env site r).at s h
Step-Grounded {env} {site} (starts_device r s) h = (device-Grounded env site r).at s h
Step-Grounded {env} {site} (decides r s) h = (decision-Grounded env site r).at s h

-- In a server that serves any requests to its eight endpoints, in any order, from a state in which
-- every stored challenge and every stored code is backed by the registered clients, the clients stay
-- the same, and every stored challenge and code is backed again: its client is registered, with
-- that redirect URI and at least those scopes, and its PKCE method is S256.
pub Reach-Grounded :
    {env : Env} {site : Site} {saml : Saml} {cs : Dict Client} {s t : Server}
    → Reach env site saml s t
    → Grounded cs s
    → Grounded cs t
Reach-Grounded here h = h
Reach-Grounded (next reach step) h = Step-Grounded step (Reach-Grounded reach h)

-- The access token of a redemption, and the registered client that it does not exceed
pub record Within (cs : Dict Client) (req : GrantRequest) (w' : World) (resp : GrantResponse)
    : Type 0 where
  pub client : Client
  pub token : Token
  pub registered : lookup req.client_id cs ≡ some client
  pub redirect : contains client.redirect_uris req.redirect_uri ≡ true
  pub stored : lookup resp.access_token w'.tokens ≡ some token
  pub scopes : Subset token.scopes client.scopes
  pub owner : token.client_id ≡ client.id

some-inj : {A : Type 0} {a b : A} → some a ≡ some b → a ≡ b
some-inj e = cc

module _ {env : Env} {site : Site} {saml : Saml} {cs : Dict Client} {s t : Server}
    (reach : Reach env site saml s t) (start : Grounded cs s) (req : GrantRequest) (w' : World)
    (resp : GrantResponse) (e : redeem_code env req t.world ≡ (ok resp, w')) where
  -- In a server that has served any requests from a state in which every stored challenge and code
  -- is backed by the registered clients, a code that is redeemed yields a stored access token whose
  -- scopes are all registered for the client that redeems it, and the redirect URI of the redemption
  -- is registered for that client.
  pub redeemed-Within : Within cs req w' resp
  redeemed-Within =
      let grounded = Reach-Grounded reach start in
      let stages = redeem-Stages env req t.world w' resp e in
      let w₁ = stages.w₁ in
      let matches =
        verify_match-Matches env stages.code req (env.clock (suc w₁.readings)) stages.matched in
      let (found, _) =
        authenticate_client_sound env req t.world w₁ stages.client stages.authenticated in
      let h : IsGrounded cs w₁ =
        subst (IsGrounded cs) (ap (λ p. p.1) stages.authenticated)
          ((authenticate_client-IsGrounded env req).at t.world grounded) in
      let (held, _, _) =
        consume_code-ok (env.clock w₁.readings) req.code w₁.codes stages.code stages.redeemed in
      let backed : BackedCode cs "" stages.code =
        (Entries-lookup (BackedCode cs) req.code w₁.codes stages.code h.2 held).2 in
      let stored =
        issue_tokens-Issued env stages.client stages.code req.dpop_jkt (consumed env req.code w₁) w'
          resp stages.issued in
      let same : backed.client ≡ stages.client = some-inj (
        sym backed.registered
        ∙ ap (λ k. lookup k cs) matches.client_id
        ∙ subst (λ d. lookup req.client_id d ≡ some stages.client) grounded.0 found) in
      record {
        client = stages.client;
        token =
            record (code_token env stages.client stages.code req.dpop_jkt stored.at
              stored.token_id) { raw = resp.access_token };
        registered = subst (λ d. lookup req.client_id d ≡ some stages.client) grounded.0 found;
        redirect =
            subst (λ u. contains stages.client.redirect_uris u ≡ true) matches.redirect_uri
              (subst (λ c. contains c.redirect_uris stages.code.redirect_uri ≡ true) same
                backed.redirect);
        stored = stored.access;
        scopes = subst (λ c. Subset stages.code.scopes c.scopes) same backed.within;
        owner = refl;
      }
