-- ===== src/Auth/Http/Flow/Codes.antt =====
-- POST /internal/issue-code keeps the codes backed.
use identity_platform_go.Base.{
  arith, subst, sym, ℕ, ◌≡◌, false, some, String, List, [], ◌∷◌, ok, Option-cases, inl, inr, not,
  ◌>>=◌, Subset, Subset_trans,
}
use identity_platform_go.Base.Dict.{
  Dict, Entries, Entries-erase, Entries-insert, Entries-lookup, lookup, erase,
}
use identity_platform_go.Base.Keeps.{
  Keeps, keeps_rules, Keeps-pure, Keeps-bind, Keeps-bind_with, Keeps-guard, Keeps-modify,
  Keeps-fail_if,
}
use identity_platform_go.Auth.Domain.{Client}
use identity_platform_go.Auth.Requests.{LoginChallenge}
use identity_platform_go.Auth.Store.{consume_challenge, save_code}
use identity_platform_go.Auth.World.{Env, World, now}
use identity_platform_go.Auth.Grants.ClientCredentials.Proofs.{all_allowed-Subset}
use identity_platform_go.Auth.Grants.Code.{IssueRequest, issue_code}
use identity_platform_go.Auth.Http.Messages.{HttpRequest, Site, IssueCodeBody}
use identity_platform_go.Auth.Http.Authorize.{scopes_are_subset}
use identity_platform_go.Auth.Http.IssueCode.{
  take_challenge, decode_issue_body, granted_scopes, mint_request, mint_and_respond,
  handle_issue_code,
}
use identity_platform_go.Auth.Http.Flow.Backing.{
  IsBacked, BackedChallenge, BackedCode, IsGrounded, now-IsGrounded, draw-IsGrounded,
}
use identity_platform_go.Auth.Http.Flow.Handlers.{Grounded, call-Grounded, call-ok}

consume_challenge-Entries :
    (P : String → LoginChallenge → Type 0) (t : ℕ) (id : String) (d : Dict LoginChallenge)
    → Entries P d
    → Entries P (consume_challenge t id d).1
unfolding consume_challenge
consume_challenge-Entries P t id d h = elim (Option-cases (lookup id d)) [
  | inl q ↦
      let same : (consume_challenge t id d).1 ≡ d = ground arith in subst (Entries P) (sym same) h
  | inr (c, q) ↦
      let gone : (consume_challenge t id d).1 ≡ erase id d = ground arith in
      subst (Entries P) (sym gone) (Entries-erase P id d h)
]

take_challenge-held :
    (env : Env) (id : String) (w : World) (c : LoginChallenge)
    → (take_challenge env id w).0 ≡ ok c
    → lookup id w.challenges ≡ some c
unfolding take_challenge consume_challenge now ◌>>=◌
take_challenge-held env id w c e = elim (Option-cases (lookup id w.challenges)) [
  | inl q ↦ absurd (ground arith)
  | inr (d, q) ↦ ground arith
]

-- What is granted is what was consented to, or else all that was asked for.
granted_scopes-Subset :
    (consent requested allowed : List String)
    → not (scopes_are_subset consent requested) ≡ false
    → Subset requested allowed
    → Subset (granted_scopes consent requested) allowed
unfolding scopes_are_subset
granted_scopes-Subset [] requested allowed e h = h
granted_scopes-Subset (x ∷ xs) requested allowed e h =
    Subset_trans (x ∷ xs) requested allowed (all_allowed-Subset requested (x ∷ xs) (ground arith)) h

module _ {cs : Dict Client} where
  take_challenge-IsGrounded :
      (env : Env) (id : String) → Keeps (IsGrounded cs) (take_challenge env id)
  unfolding take_challenge
  take_challenge-IsGrounded env id = Keeps-bind _ _ (now-IsGrounded env) λ t. record {
    at = λ w h. (h.0, consume_challenge-Entries (BackedChallenge cs) t id w.challenges h.1, h.2);
  }

  issue_code-IsGrounded :
      (env : Env) (r : IssueRequest)
      → IsBacked cs r.client_id r.redirect_uri r.code_challenge_method r.scopes
      → Keeps (IsGrounded cs) (issue_code env r)
  unfolding issue_code save_code
  issue_code-IsGrounded env r backed = Keeps-bind _ _ (Keeps-fail_if _ _) λ _.
      Keeps-bind _ _ (draw-IsGrounded env) λ raw. Keeps-bind _ _ (now-IsGrounded env) λ at.
        Keeps-bind _ _
          (Keeps-modify _
            λ w h. (h.0, h.1, Entries-insert (BackedCode cs) raw _ w.codes h.2 backed))
          λ _. Keeps-pure raw

  mint_and_respond-Grounded :
      (env : Env) (site : Site) (c : LoginChallenge) (body : IssueCodeBody)
      → IsBacked cs c.client_id c.redirect_uri c.code_challenge_method c.scopes
      → not (scopes_are_subset body.consent_granted c.scopes) ≡ false
      → Keeps (Grounded cs) (mint_and_respond env site c body)
  unfolding mint_and_respond
  mint_and_respond-Grounded env site c body backed consent =
      Keeps-bind _ _
        (call-Grounded _ _ (
          issue_code-IsGrounded env (mint_request c body) (record {
            client = backed.client;
            registered = backed.registered;
            redirect = backed.redirect;
            proof = backed.proof;
            within =
                granted_scopes-Subset body.consent_granted c.scopes backed.client.scopes consent
                  backed.within;
          })))
        λ code. Keeps-pure _

  decode-Grounded : (site : Site) (r : HttpRequest) → Keeps (Grounded cs) (decode_issue_body site r)
  unfolding decode_issue_body
  decode-Grounded site r = search keeps_rules

  pub issue_code-Grounded :
      (env : Env) (site : Site) (r : HttpRequest)
      → Keeps (Grounded cs) (handle_issue_code env site r)
  unfolding handle_issue_code
  issue_code-Grounded env site r = Keeps-bind _ _ (Keeps-fail_if _ _) λ _.
      Keeps-bind _ _ (Keeps-fail_if _ _) λ _. Keeps-bind _ _ (decode-Grounded site r) λ body.
        Keeps-bind_with _ _
          {Q = λ c. IsBacked cs c.client_id c.redirect_uri c.code_challenge_method c.scopes}
          (call-Grounded _ _ (take_challenge-IsGrounded env body.login_challenge))
          (λ s c h e.
            (Entries-lookup (BackedChallenge cs) body.login_challenge s.world.challenges c h.1
              (take_challenge-held env body.login_challenge s.world c (call-ok _ _ s c e))).2)
          λ c backed.
            Keeps-guard _ _ _ λ consent. mint_and_respond-Grounded env site c body backed consent
