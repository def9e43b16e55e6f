-- ===== src/Auth/Http/Flow/Backing.antt =====
-- Challenges and codes that stand on a registered client, and the rules for the calls that leave
-- them alone.
use identity_platform_go.Base.{
  subst, sym, ◌∙◌, ◌≡◌, true, some, String, List, contains, Subset, Option-cases, inl, inr,
}
use identity_platform_go.Base.Dict.{Dict, lookup, Entries}
use identity_platform_go.Base.Keeps.{Keeps}
use identity_platform_go.Auth.Domain.{Client, AuthorizationCode}
use identity_platform_go.Auth.Requests.{LoginChallenge}
use identity_platform_go.Auth.World.{Env, World, now, draw}

-- The client, the redirect URI, the method and the scopes of a request that was validated
pub record IsBacked (clients : Dict Client) (client_id redirect_uri method : String)
    (scopes : List String) : Type 0 where
  pub client : Client
  pub registered : lookup client_id clients ≡ some client
  pub redirect : contains client.redirect_uris redirect_uri ≡ true
  pub proof : method ≡ "S256"
  pub within : Subset scopes client.scopes

abbrev pub BackedChallenge : Dict Client → String → LoginChallenge → Type 0
BackedChallenge cs _ c = IsBacked cs c.client_id c.redirect_uri c.code_challenge_method c.scopes

abbrev pub BackedCode : Dict Client → String → AuthorizationCode → Type 0
BackedCode cs _ c = IsBacked cs c.client_id c.redirect_uri c.code_challenge_method c.scopes

-- Every stored challenge and every stored code is backed by the clients, which stay the same.
abbrev pub IsGrounded : Dict Client → World → Type 0
IsGrounded cs w =
    (w.clients ≡ cs) × Entries (BackedChallenge cs) w.challenges × Entries (BackedCode cs) w.codes

module _ {cs : Dict Client} where
  pub now-IsGrounded : (env : Env) → Keeps (IsGrounded cs) (now env)
  unfolding now
  now-IsGrounded env = record { at = λ w h. h }

  pub draw-IsGrounded : (env : Env) → Keeps (IsGrounded cs) (draw env)
  unfolding draw
  draw-IsGrounded env = record {
    at = λ w h. elim (Option-cases (env.random w.draws)) [ inl q ↦ rw q h | inr (r, q) ↦ rw q h ];
  }

  -- A change that leaves the three tables alone
  pub IsGrounded-frame :
      (w w' : World)
      → w'.clients ≡ w.clients
      → w'.challenges ≡ w.challenges
      → w'.codes ≡ w.codes
      → IsGrounded cs w
      → IsGrounded cs w'
  IsGrounded-frame w w' a b c h = (
    a ∙ h.0,
    subst (Entries (BackedChallenge cs)) (sym b) h.1,
    subst (Entries (BackedCode cs)) (sym c) h.2,
  )
