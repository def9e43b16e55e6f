-- ===== src/Auth/Grants/Registry/Audit.antt =====
-- GrantStrategyRegistry.Handle and its audit event.
use identity_platform_go.Base.{
  >>=-elim, pure-ok, suc, ◌≡◌, true, ◌⊎◌, inl, inr, ok, arith, Bool-cases, sym, ◌∙◌, List, [], ◌∷◌,
}
use identity_platform_go.Auth.Requests.{GrantRequest, GrantResponse}
use identity_platform_go.Auth.World.{Env, World, Event}
use identity_platform_go.Auth.Grants.Registry.{
  Strategy, token_issued_event, emit, audited, handle_with,
}

-- What holds of an answer: one strategy made it, in a state that differs from the last one by the
-- event of this request alone.
pub record Audited (env : Env) (s : Strategy) (req : GrantRequest) (w w' : World)
    (resp : GrantResponse) : Type 0 where
  pub made : World
  pub supported : s.supports req.grant_type ≡ true
  pub handled : s.handle req w ≡ (ok resp, made)
  pub recorded : w' ≡ record made {
    emissions = suc made.emissions;
    events = token_issued_event req resp ∷ made.events;
  }

emit-ok :
    (env : Env) (event : Event) (w w' : World)
    → emit env event w ≡ (ok tt, w')
    → w' ≡ record w { emissions = suc w.emissions; events = event ∷ w.events }
unfolding emit
emit-ok env event w w' e = ground arith

audited-ok :
    (env : Env) (s : Strategy) (req : GrantRequest) (w w' : World) (resp : GrantResponse)
    → s.supports req.grant_type ≡ true
    → audited env s req w ≡ (ok resp, w')
    → Audited env s req w w' resp
unfolding audited
audited-ok env s req w w' resp supported e = >>=-elim _ _ e λ r w₁ q₁ e₁.
    >>=-elim _ _ e₁ λ _ w₂ q₂ e₂.
      let (same, p) = pure-ok r resp w₂ w' e₂ in
      let p₂ = emit-ok env (token_issued_event req r) w₁ w₂ q₂ in
      record {
        made = w₁;
        supported = supported;
        handled = rw same at q₁;
        recorded = sym p ∙ (rw same at p₂);
      }

abbrev pub AnyOf : (Strategy → Type 0) → List Strategy → Type 0
AnyOf P [] = ⊥
AnyOf P (s ∷ ss) = P s ⊎ AnyOf P ss

-- A token is answered only by one of the registered strategies that supports the grant type, and
-- only after its token_issued event has been stored; the event is the last change.
pub handle_with-Audited :
    (env : Env) (ss : List Strategy) (req : GrantRequest) (w w' : World) (resp : GrantResponse)
    → handle_with env ss req w ≡ (ok resp, w')
    → AnyOf (λ s. Audited env s req w w' resp) ss
unfolding handle_with
handle_with-Audited env [] req w w' resp e = absurd (ground arith)
handle_with-Audited env (s ∷ ss) req w w' resp e = elim (Bool-cases (s.supports req.grant_type)) [
  | inl q ↦ inl (audited-ok env s req w w' resp q (rw q at e))
  | inr q ↦ inr (handle_with-Audited env ss req w w' resp (rw q at e))
]
