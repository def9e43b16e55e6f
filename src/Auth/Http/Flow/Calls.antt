-- ===== src/Auth/Http/Flow/Calls.antt =====
-- The calls that the grants share leave the challenges and the codes alone.
use identity_platform_go.Base.{arith, ℕ, ◌≡◌, String, List, Option, Option-cases, inl, inr}
use identity_platform_go.Base.Dict.{Dict}
use identity_platform_go.Base.Keeps.{
  Keeps, keeps_rules, Keeps-if, Keeps-pure, Keeps-bind, Keeps-fail, Keeps-still, Keeps-or_fail,
  Keeps-lift,
}
use identity_platform_go.Auth.Domain.{Client, Token}
use identity_platform_go.Auth.Requests.{GrantRequest}
use identity_platform_go.Auth.World.{Env, World, Assertion}
use identity_platform_go.Auth.Clients.{
  authenticate, lookup_client, use_assertion, authenticate_assertion, authenticate_client,
}
use identity_platform_go.Auth.Tokens.{generate_id, issue_access, issue_refresh}
use identity_platform_go.Auth.Http.Flow.Backing.{
  IsGrounded, BackedCode, now-IsGrounded, draw-IsGrounded,
}

authenticate-still : (id secret : String) (w : World) → (authenticate id secret w).1 ≡ w
unfolding authenticate
authenticate-still id secret w = ground arith

lookup_client-still : (id : String) (w : World) → (lookup_client id w).1 ≡ w
unfolding lookup_client
lookup_client-still id w = ground arith

module _ {cs : Dict Client} where
  pub generate_id-IsGrounded : (env : Env) → Keeps (IsGrounded cs) (generate_id env)
  unfolding generate_id
  generate_id-IsGrounded env = record { at = λ w h. (draw-IsGrounded env).at w h }

  pub issue_access-IsGrounded : (env : Env) (t : Token) → Keeps (IsGrounded cs) (issue_access env t)
  unfolding issue_access
  issue_access-IsGrounded env t = search keeps_rules

  pub issue_refresh-IsGrounded :
      (env : Env) (client_id subject : String) (scopes : List String) (at : ℕ)
      → Keeps (IsGrounded cs) (issue_refresh env client_id subject scopes at)
  unfolding issue_refresh
  issue_refresh-IsGrounded env client_id subject scopes at =
      search (keeps_rules, generate_id-IsGrounded)

  pub authenticate-IsGrounded :
      (id secret : String) → Keeps (IsGrounded cs) (authenticate id secret)
  authenticate-IsGrounded id secret = Keeps-still _ (authenticate-still id secret)

  pub lookup_client-IsGrounded : (id : String) → Keeps (IsGrounded cs) (lookup_client id)
  lookup_client-IsGrounded id = Keeps-still _ (lookup_client-still id)

  pub use_assertion-IsGrounded :
      (env : Env) (jti : String) (exp : ℕ) → Keeps (IsGrounded cs) (use_assertion env jti exp)
  unfolding use_assertion
  use_assertion-IsGrounded env jti exp =
      Keeps-bind _ _ (now-IsGrounded env) λ t. record { at = λ w h. h }

  pub authenticate_assertion-IsGrounded :
      (env : Env) (parse : ℕ → String → String → Option Assertion) (id a : String)
      → Keeps (IsGrounded cs) (authenticate_assertion env parse id a)
  unfolding authenticate_assertion
  authenticate_assertion-IsGrounded env parse id a =
      search (keeps_rules, now-IsGrounded, lookup_client-IsGrounded, use_assertion-IsGrounded) depth
        24

  pub authenticate_client-IsGrounded :
      (env : Env) (req : GrantRequest) → Keeps (IsGrounded cs) (authenticate_client env req)
  unfolding authenticate_client
  authenticate_client-IsGrounded env req = elim (Option-cases env.parse_assertion) [
    | inl q ↦ rw q (search (keeps_rules, authenticate-IsGrounded))
    | inr (parse, q) ↦
        rw q (search (keeps_rules, authenticate-IsGrounded, authenticate_assertion-IsGrounded))
  ]

  pub ruleset basics = (
    keeps_rules, now-IsGrounded, generate_id-IsGrounded, issue_access-IsGrounded,
    issue_refresh-IsGrounded, authenticate-IsGrounded, authenticate_client-IsGrounded,
  )
