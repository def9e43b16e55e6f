-- ===== src/Auth/Http/Throttle.antt =====
-- The rate limit of handler.go in front of a handler.
use identity_platform_go.Base.{ok, err, ◌>>=◌, if◌then◌else◌}
use identity_platform_go.Auth.World.{Env, now}
use identity_platform_go.Auth.Http.Messages.{
  HttpRequest, Site, Handler, oauth_error, call, client_ip,
}
use identity_platform_go.Auth.Http.Limiter.{allow}

-- `if !h.rateLimiter.Allow(clientIP(r))`
unfoldable pub throttle : Env → Site → HttpRequest → Handler (Unit {0})
unfolding client_ip allow
throttle env site r = do
  t ← call (now env) (λ _. oauth_error 500 "server_error")
  λ s.
      let (admitted, d) = allow site.max_requests site.window t (client_ip r) s.buckets in
      (if admitted then ok tt else err (oauth_error 429 "server_error"), record s { buckets = d })
