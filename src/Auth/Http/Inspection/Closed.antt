-- ===== src/Auth/Http/Inspection/Closed.antt =====
-- POST /oauth/introspect fails closed.
use identity_platform_go.Base.{
  suc, ◌≡◌, refl, arith, ap, sym, subst, ◌∙◌, true, false, ◌⊎◌, inl, inr, some, none, String, ◌∷◌,
  ok, err, Result, Result-cases, Bool-cases, >>=-elim, pure-ok, fail_if-ok, is_empty, ◌>>=◌, Option,
  or_fail,
}
use identity_platform_go.Base.Dict.{Dict, lookup}
use identity_platform_go.Base.Fails.{
  Fails, Fails-bind, Fails-if, Fails-pure, Fails-fail, Fails-fail_if, Fails-or_fail,
}
use identity_platform_go.Auth.Domain.{Client, Error}
use identity_platform_go.Auth.World.{Env, World, M, now}
use identity_platform_go.Auth.Clients.{authenticate}
use identity_platform_go.Auth.Clients.Proofs.{authenticate_sound}
use identity_platform_go.Auth.TokenService.{Introspection, introspect, inactive}
use identity_platform_go.Auth.Http.Messages.{
  HttpRequest, Site, Server, HandlerEvent, token_introspected, Reply, introspected, oauth_error,
  call, credentials, form_value, has_bearer,
}
use identity_platform_go.Auth.Http.Messages.{client_ip}
use identity_platform_go.Auth.Http.Limiter.{allow}
use identity_platform_go.Auth.Http.Throttle.{throttle}
use identity_platform_go.Auth.Http.Inspection.{
  secret_actor, authenticate_credentials, authenticate_introspection, emit_event, run_introspection,
  handle_introspect,
}

-- The reply, early or not
abbrev pub reply_of : Result Reply Reply → Reply
reply_of (ok x) = x
reply_of (err x) = x

abbrev NotActive : Reply → Type 0
NotActive (introspected i) = i.active ≡ false
NotActive _ = Unit

call-Fails :
    {A : Type 0} {P : Reply → Type 0} (m : M A) (reply : Error → Reply)
    → ((e : Error) → P (reply e))
    → Fails P (call m reply)
unfolding call
call-Fails {P = P} m reply p = record {
  at = λ s e q. elim (Result-cases (m s.world).0) [
    | inl (a, r) ↦ absurd (ground arith)
    | inr (x, r) ↦ let same : reply x ≡ e = ground arith in subst P same (p x)
  ];
}

throttle-NotActive :
    (env : Env) (site : Site) (r : HttpRequest) → Fails NotActive (throttle env site r)
unfolding throttle
throttle-NotActive env site r = Fails-bind _ _ (call-Fails (now env) _ λ e. tt) λ t. record {
  at = λ s e q.
      elim (Bool-cases (allow site.max_requests site.window t (client_ip r) s.buckets).0) [
        | inl a ↦ absurd (ground arith)
        | inr a ↦
            let same : oauth_error 429 "server_error" ≡ e = ground arith in subst NotActive same tt
      ];
}

authenticate-NotActive :
    (site : Site) (r : HttpRequest) → Fails NotActive (authenticate_introspection site r)
unfolding authenticate_introspection authenticate_credentials
authenticate-NotActive site r =
    Fails-if _ _ _
      (Fails-bind _ _ (Fails-fail_if _ _ tt)
        λ _. Fails-bind _ _ (call-Fails (authenticate _ _) _ λ e. tt) λ _. Fails-pure _)
      (Fails-if _ _ _ (Fails-pure _) (Fails-fail _ tt))

event-NotActive :
    (env : Env) (e : HandlerEvent) → Fails NotActive (emit_event env e (introspected inactive))
unfolding emit_event
event-NotActive env e = record {
  at = λ s x q. elim (Bool-cases (env.sink s.world.emissions)) [
    | inl a ↦ absurd (ground arith)
    | inr a ↦ let same : introspected inactive ≡ x = ground arith in subst NotActive same refl
  ];
}

run-NotActive : (env : Env) (token : String) → Fails NotActive (run_introspection env token)
unfolding run_introspection
run-NotActive env token = record { at = λ s x q. absurd (ground arith) }

-- Every early return of `Introspect` is inactive or no introspection at all.
introspect-NotActive :
    (env : Env) (site : Site) (r : HttpRequest) → Fails NotActive (handle_introspect env site r)
unfolding handle_introspect
introspect-NotActive env site r = Fails-bind _ _ (throttle-NotActive env site r) λ _.
    Fails-bind _ _ (Fails-or_fail _ _ refl) λ _.
      Fails-bind _ _ (authenticate-NotActive site r) λ actor.
        Fails-bind _ _ (Fails-fail_if _ _ refl) λ _.
          Fails-bind _ _ (run-NotActive env _)
            λ answer. Fails-bind _ _ (event-NotActive env _) λ _. Fails-pure _

-- The caller holds the configured secret or, where none is configured, is a registered client.
abbrev pub IsCaller : Site → HttpRequest → String → Dict Client → Type 0
IsCaller site r actor clients =
    (is_empty site.introspection_secret ≡ false)
      × (has_bearer site.introspection_secret r ≡ true)
      × (actor ≡ secret_actor)
    ⊎ (is_empty site.introspection_secret ≡ true)
      × ((c : Client) × (lookup actor clients ≡ some c) × (c.secret ≡ (credentials r).1))

-- What stands behind an answer. The token service runs on the server's own state, of which the rate
-- limit has read the clock once.
pub record Answered (env : Env) (site : Site) (r : HttpRequest) (s s' : Server) (i : Introspection)
    : Type 0 where
  pub actor : String
  pub answer :
      i
      ≡ (introspect env
          (form_value r "token")
          (record (s.world) { readings = suc s.world.readings })).0
  pub recorded : s'.events ≡ token_introspected actor i ∷ s.events
  pub caller : IsCaller site r actor s.world.clients

call-ran :
    {A : Type 0} (m : M A) (reply : Error → Reply) (s s' : Server) (a : A)
    → call m reply s ≡ (ok a, s')
    → (m s.world ≡ (ok a, s'.world)) × (s'.events ≡ s.events)
unfolding call
call-ran m reply s s' a e = elim (Result-cases (m s.world).0) [
  | inl (b, r) ↦ (ground arith, ground arith)
  | inr (x, r) ↦ absurd (ground arith)
]

throttle-keeps :
    (env : Env) (site : Site) (r : HttpRequest) (s s' : Server)
    → throttle env site r s ≡ (ok tt, s')
    → (s'.events ≡ s.events) × (s'.world ≡ record (s.world) { readings = suc s.world.readings })
unfolding throttle call now ◌>>=◌
throttle-keeps env site r s s' e = (ground arith, ground arith)

authenticate-still :
    (id secret : String) (w w' : World) (c : Client)
    → authenticate id secret w ≡ (ok c, w')
    → w' ≡ w
unfolding authenticate
authenticate-still id secret w w' c e = ground arith

caller-known :
    (r : HttpRequest) (s s' : Server) (actor : String)
    → authenticate_credentials r s ≡ (ok actor, s')
    → (s'.events ≡ s.events)
      × (s'.world ≡ s.world)
      × ((c : Client) × (lookup actor s.world.clients ≡ some c) × (c.secret ≡ (credentials r).1))
unfolding authenticate_credentials
caller-known r s s' actor e = >>=-elim _ _ e λ _ s₁ q₁ e₁. >>=-elim _ _ e₁ λ c s₂ q₂ e₂.
    let (_, a) = fail_if-ok _ _ s s₁ q₁ in
    let (p, b) = pure-ok _ actor s₂ s' e₂ in
    let (ran, kept) = call-ran (authenticate (credentials r).0 (credentials r).1) _ s₁ s₂ c q₂ in
    let (found, secret) =
      authenticate_sound (credentials r).0 (credentials r).1 s₁.world s₂.world c ran in
    let still = authenticate-still (credentials r).0 (credentials r).1 s₁.world s₂.world c ran in
    (ground arith, ground arith, (c, ground arith, secret))

or_fail-still :
    {A : Type 0} {a : A} (o : Option A) (x : Reply) (s s' : Server)
    → or_fail o x s ≡ (ok a, s')
    → s' ≡ s
or_fail-still none x s s' e = absurd (ground arith)
or_fail-still (some b) x s s' e = ground arith

run_introspection-ran :
    (env : Env) (token : String) (s s' : Server) (i : Introspection)
    → run_introspection env token s ≡ (ok i, s')
    → (s'.events ≡ s.events) × (i ≡ (introspect env token s.world).0)
unfolding run_introspection
run_introspection-ran env token s s' i e = (ground arith, ground arith)

introspected-inj : {i j : Introspection} → introspected i ≡ introspected j → i ≡ j
introspected-inj e = cc

introspection-IsCaller :
    (site : Site) (r : HttpRequest) (s s' : Server) (actor : String)
    → authenticate_introspection site r s ≡ (ok actor, s')
    → (s'.events ≡ s.events) × (s'.world ≡ s.world) × IsCaller site r actor s.world.clients
unfolding authenticate_introspection
introspection-IsCaller site r s s' actor e =
    elim (Bool-cases (is_empty site.introspection_secret)) [
      | inl unset ↦
          let (kept, still, known) = caller-known r s s' actor (rw unset at e) in
          (kept, still, inr (unset, known))
      | inr shut ↦ elim (Bool-cases (has_bearer site.introspection_secret r)) [
        | inl bearer ↦ (ground arith, ground arith, inl (shut, bearer, ground arith))
        | inr wrong ↦ absurd (ground arith)
      ]
    ]

emit_event-recorded :
    (env : Env) (e : HandlerEvent) (x : Reply) (s s' : Server)
    → emit_event env e x s ≡ (ok tt, s')
    → s'.events ≡ e ∷ s.events
unfolding emit_event
emit_event-recorded env e x s s' q = elim (Bool-cases (env.sink s.world.emissions)) [
  | inl a ↦ ground arith
  | inr a ↦ absurd (ground arith)
]

introspect-Answered :
    (env : Env) (site : Site) (r : HttpRequest) (s s' : Server) (reply : Reply)
    → handle_introspect env site r s ≡ (ok reply, s')
    → (i : Introspection) × (reply ≡ introspected i) × Answered env site r s s' i
unfolding handle_introspect
introspect-Answered env site r s s' reply e = >>=-elim _ _ e λ _ s₁ q₁ e₁.
    >>=-elim _ _ e₁ λ _ s₂ q₂ e₂. >>=-elim _ _ e₂ λ actor s₃ q₃ e₃. >>=-elim _ _ e₃ λ _ s₄ q₄ e₄.
      >>=-elim _ _ e₄ λ i s₅ q₅ e₅. >>=-elim _ _ e₅ λ _ s₆ q₆ e₆.
        let (kept, same) = throttle-keeps env site r s s₁ q₁ in
        let p₂ = or_fail-still r.form _ s₁ s₂ q₂ in
        let (p₃, still, known) = introspection-IsCaller site r s₂ s₃ actor q₃ in
        let (_, p₄) = fail_if-ok _ _ s₃ s₄ q₄ in
        let (p₅, a) = run_introspection-ran env (form_value r "token") s₄ s₅ i q₅ in
        let p₆ = emit_event-recorded env (token_introspected actor i) _ s₅ s₆ q₆ in
        let (p, p₇) = pure-ok (introspected i) reply s₆ s' e₆ in
        let at : s₄.world ≡ record (s.world) { readings = suc s.world.readings } =
          ap (λ x. x.world) p₄ ∙ still ∙ ap (λ x. x.world) p₂ ∙ same in
        let events : s'.events ≡ token_introspected actor i ∷ s.events = ground arith in
        (
          i,
          sym p,
          record {
            actor = actor;
            answer = a ∙ ap (λ x. (introspect env (form_value r "token") x).0) at;
            recorded = events;
            caller =
                subst (IsCaller site r actor)
                  (ap (λ x. x.world.clients) p₂ ∙ ap (λ x. x.clients) same) known;
          },
        )

-- An introspection that is answered as active is the token service's answer for the request's
-- token on the server's own state at that call, to a caller that presented the configured secret or, where none is configured, the
-- credentials of a registered client, and its audit event is stored. Each failure, an audit event
-- that is not stored included, is answered as inactive or as an error.
pub handle_introspect-Answered :
    (env : Env) (site : Site) (r : HttpRequest) (s s' : Server) (i : Introspection)
    (result : Result Reply Reply)
    → handle_introspect env site r s ≡ (result, s')
    → reply_of result ≡ introspected i
    → i.active ≡ true
    → Answered env site r s s' i
handle_introspect-Answered env site r s s' i (ok reply) e same active =
    let (j, p, answered) = introspect-Answered env site r s s' reply e in
    subst (Answered env site r s s') (introspected-inj (sym p ∙ same)) answered
handle_introspect-Answered env site r s s' i (err x) e same active =
    let closed : NotActive x = (introspect-NotActive env site r).at s x (ap (λ p. p.0) e) in
    let shut : i.active ≡ false = subst NotActive same closed in absurd (ground arith)
