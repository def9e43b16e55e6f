-- ===== src/Auth.antt =====
-- services/auth-server: the OAuth 2 authorization server. The children follow its layers.
pub mod Domain
pub mod Details
pub mod Dpop
pub mod Http
pub mod Requests
pub mod Store
pub mod World
pub mod Clients
pub mod Tokens
pub mod TokenService
pub mod Grants
mod Tests
