-- ===== src/Auth/Http.antt =====
-- services/auth-server/internal/adapters/inbound/http: the handlers. A handler runs in the state of
-- the repositories and of its rate limiter, and gives a reply; an early return is a failure with
-- that reply.
pub mod Messages
pub mod Throttle
pub mod Limiter
pub mod Authorize
pub mod IssueCode
pub mod Token
pub mod Inspection
pub mod DeviceEndpoint
pub mod Flow
