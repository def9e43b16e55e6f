-- ===== src/Auth/Tests/Endpoints.antt =====
-- The rate limit, a DPoP proof, an introspection and the liveness of a redemption at concrete inputs.
use identity_platform_go.Auth.Domain.{no_token}
use identity_platform_go.Base.{
  ◌>>=◌, ℕ, ◌*◌, ◌≤◌, ◌≡◌, refl, arith, true, false, none, some, String, List, [], ◌∷◌, ok, err,
  Result, contains, Option,
}
use identity_platform_go.Base.Dict.{lookup}
use identity_platform_go.Auth.Domain.{
  Client, AuthorizationCode, Error, code_expired, has_grant_type, grant_authorization_code, Token,
  no_token,
}
use identity_platform_go.Auth.Store.{save_code}
use identity_platform_go.Auth.Store.Abstract.{
  Operation, saves, consumes, answers, abstract_answers, answers_refine, Represents,
}
use identity_platform_go.Auth.World.{Env, World, now}
use identity_platform_go.Auth.Details.{negsuc}
use identity_platform_go.Auth.Dpop.{Proof, Proved, validate_proof, validate_proof-Proved}
use identity_platform_go.Auth.Clients.{authenticate_client}
use identity_platform_go.Auth.Tokens.{generate}
use identity_platform_go.Auth.TokenService.{Introspection, introspect, inactive}
use identity_platform_go.Auth.Grants.Code.{redeem_code, validate_fields}
use identity_platform_go.Auth.Grants.Code.Live.{Succeeds, Works, redeem_code_live}
use identity_platform_go.Auth.Http.Limiter.Window.{admissions, admissions_bounded}
use identity_platform_go.Auth.Http.Messages.{HttpRequest, Reply, introspected, Server}
use identity_platform_go.Auth.Http.Inspection.{handle_introspect}
use identity_platform_go.Auth.Http.Inspection.Closed.{
  Answered, reply_of, handle_introspect-Answered,
}
use identity_platform_go.Auth.Tests.Setting.{env, world, web, request, code}
use identity_platform_go.Auth.Tests.Flow.{site, server, plain}

abbrev calls : List (ℕ × String)
calls = (0, "a") ∷ (1, "b") ∷ (2, "a") ∷ (3, "a") ∷ []

admissions_bounded_example : admissions 2 10 "a" calls [] ≤ 2 * 2
admissions_bounded_example =
    admissions_bounded 2 10 0 "a" calls [] (omega arith)
      (
        (omega arith, omega arith),
        (
          (omega arith, omega arith),
          ((omega arith, omega arith), ((omega arith, omega arith), tt)),
        ),
      )
      tt

abbrev proof : Proof
proof = record {
  htm = "POST";
  htu = "https://as/oauth/token";
  jti = "j";
  iat = negsuc 62_135_596_789;
  thumbprint = some "key";
}

abbrev parse : String → Option Proof
parse _ = some proof

abbrev proved : World
proved = (validate_proof env parse "p" "POST" "https://as/oauth/token" world).1

validated : validate_proof env parse "p" "POST" "https://as/oauth/token" world ≡ (ok "key", proved)
unfolding validate_proof ◌>>=◌ now lookup identity_platform_go.Auth.Store.sweep
validated = refl

validate_proof-Proved_example :
    Proved env parse "p" "POST" "https://as/oauth/token" "key" world proved
validate_proof-Proved_example =
    validate_proof-Proved env parse "p" "POST" "https://as/oauth/token" "key" world proved validated

abbrev ops : List Operation
ops = saves code ∷ consumes 5 "c" ∷ consumes 6 "c" ∷ []

represents : Represents [] (λ k. none)
unfolding lookup
represents k = refl

answers_refine_example : answers ops [] ≡ abstract_answers ops (λ k. none)
answers_refine_example = answers_refine ops [] (λ k. none) represents

abbrev total : Env
total = record env { random = λ n. some "r" }

signs : (t : Token) → (raw : String) × (generate total t ≡ some raw)
unfolding generate
signs t = ("signed", refl)

works : Works total
works = record {
  draws = λ n. ("r", refl);
  signs = signs;
  id_tokens = λ sign q i. absurd (ground arith);
}

fields : validate_fields request ≡ ok tt
unfolding validate_fields
fields = refl

known : authenticate_client total request world ≡ (ok web, world)
unfolding authenticate_client lookup
known = refl

granted : has_grant_type web grant_authorization_code ≡ true
unfolding contains
granted = refl

held : lookup "c" world.codes ≡ some code
unfolding lookup
held = refl

not_expired : code_expired code (total.clock 0) ≡ false
unfolding code_expired
not_expired = refl

not_expired_later : code_expired code (total.clock 1) ≡ false
unfolding code_expired
not_expired_later = refl

redeem_code_live_example : Succeeds (redeem_code total request) world
redeem_code_live_example =
    redeem_code_live total works request world world web code fields known granted held not_expired
      (record {
        client_id = refl;
        redirect_uri = refl;
        live = not_expired_later;
        method = refl;
        verifier = refl;
      })

abbrev asking : HttpRequest
asking = record plain { form = some (("token", "signed" ∷ []) ∷ []) }

abbrev stocked : Server
stocked = record server {
  world = record world { tokens = ("signed", record no_token { raw = "signed" }) ∷ [] };
}

abbrev inspected : Result Reply Reply × Server
inspected = handle_introspect env site asking stocked

abbrev seen : Introspection
seen = elim inspected.0 [ ok r ↦ elim r [ introspected i ↦ i | _ ↦ inactive ] | err _ ↦ inactive ]

shown : reply_of inspected.0 ≡ introspected seen
unfolding handle_introspect ◌>>=◌ identity_platform_go.Auth.Http.Messages.call now lookup
    identity_platform_go.Auth.Http.Messages.has_bearer
    identity_platform_go.Auth.Http.Messages.form_value
    identity_platform_go.Auth.Http.Inspection.run_introspection
    identity_platform_go.Auth.Http.Inspection.emit_event
shown = refl

active : seen.active ≡ true
unfolding handle_introspect ◌>>=◌ identity_platform_go.Auth.Http.Messages.call now lookup
    identity_platform_go.Auth.Http.Messages.has_bearer
    identity_platform_go.Auth.Http.Messages.form_value
    identity_platform_go.Auth.Http.Inspection.run_introspection
    identity_platform_go.Auth.Http.Inspection.emit_event identity_platform_go.Auth.Tokens.validate
    identity_platform_go.Auth.Tokens.validate_rs256 identity_platform_go.Auth.Domain.token_expired
    identity_platform_go.Auth.Tokens.token_of_rs256 identity_platform_go.Auth.Store.find_token
    identity_platform_go.Auth.TokenService.described
active = refl

handle_introspect-Answered_example : Answered env site asking stocked inspected.1 seen
handle_introspect-Answered_example =
    handle_introspect-Answered env site asking stocked inspected.1 seen inspected.0 refl shown
      active
