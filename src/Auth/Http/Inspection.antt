-- ===== src/Auth/Http/Inspection.antt =====
-- POST /oauth/introspect and POST /oauth/revoke (handler.go).
pub mod Closed
use identity_platform_go.Base.{
  suc, Bool, true, false, Option, none, some, String, List, [], ◌∷◌, Result, ok, err, ◌>>=◌, ◌>>◌,
  fail_if, pure, fail, or_fail, not, ◌&&◌, ◌||◌, ◌==◌, if◌then◌else◌, is_empty,
}
use identity_platform_go.Auth.World.{Env, World}
use identity_platform_go.Auth.Clients.{authenticate}
use identity_platform_go.Auth.TokenService.{Introspection, inactive, introspect, revoke}
use identity_platform_go.Auth.Http.Messages.{
  HttpRequest, Site, Server, Handler, HandlerEvent, token_introspected, token_revoked, Reply,
  oauth_error, introspected, revoked, call, form_value, credentials, has_bearer,
}
use identity_platform_go.Auth.Http.Throttle.{throttle}

-- `introspectionSecretActor`
abbrev pub secret_actor : String
secret_actor = "introspection-service"

-- `authenticateClientCredentials`: the caller
unfoldable pub authenticate_credentials : HttpRequest → Handler String
unfolding credentials authenticate
authenticate_credentials r = do
  fail_if (is_empty (credentials r).0 || is_empty (credentials r).1)
      (oauth_error 401 "invalid_client")
  _ ←
      call (authenticate (credentials r).0 (credentials r).1)
        (λ _. oauth_error 401 "invalid_client")
  pure (credentials r).0

-- `authenticateIntrospectionCaller`, with `authenticateWithSecret`
unfoldable pub authenticate_introspection : Site → HttpRequest → Handler String
authenticate_introspection site r =
    if is_empty site.introspection_secret
    then authenticate_credentials r
    else if has_bearer site.introspection_secret r
    then pure secret_actor
    else fail (oauth_error 401 "invalid_client")

-- `auditEmitter.Emit` of an event of these handlers
unfoldable pub emit_event : Env → HandlerEvent → Reply → Handler (Unit {0})
emit_event env e failed s =
    let w : World = record (s.world) { emissions = suc s.world.emissions } in
    if env.sink s.world.emissions
    then (ok tt, record s { world = w; events = e ∷ s.events })
    else (err failed, record s { world = w })

-- `introspector.Introspect`, which reports a token that is not valid as inactive
unfoldable pub run_introspection : Env → String → Handler Introspection
unfolding introspect
run_introspection env token s =
    let (answer, w) = introspect env token s.world in (ok answer, record s { world = w })

-- `Introspect`: every failure behind the authentication is the answer `{"active": false}`.
unfoldable pub handle_introspect : Env → Site → HttpRequest → Handler Reply
unfolding throttle authenticate_introspection
handle_introspect env site r = do
  throttle env site r
  _ ← or_fail r.form (introspected inactive)
  actor ← authenticate_introspection site r
  fail_if (is_empty (form_value r "token")) (introspected inactive)
  answer ← run_introspection env (form_value r "token")
  emit_event env (token_introspected actor answer) (introspected inactive)
  pure (introspected answer)

-- `validateTokenTypeHint`
unfoldable pub valid_hint : String → Bool
valid_hint hint = is_empty hint || hint == "access_token" || hint == "refresh_token"

-- `doRevoke`: a token that is not found is revoked already.
unfoldable pub do_revoke : String → Handler (Unit {0})
unfolding revoke
do_revoke token s = (ok tt, record s { world = revoke token s.world })

-- `Revoke`, with `revokePreflight`
unfoldable pub handle_revoke : Env → Site → HttpRequest → Handler Reply
unfolding throttle authenticate_credentials valid_hint do_revoke
handle_revoke env site r = do
  throttle env site r
  _ ← or_fail r.form (oauth_error 400 "invalid_request")
  actor ← authenticate_credentials r
  fail_if (not (valid_hint (form_value r "token_type_hint")))
      (oauth_error 400 "unsupported_token_type")
  fail_if (is_empty (form_value r "token")) (oauth_error 400 "invalid_request")
  do_revoke (form_value r "token")
  emit_event env (token_revoked actor (form_value r "token_type_hint"))
      (oauth_error 500 "server_error")
  pure revoked
