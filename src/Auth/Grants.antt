-- ===== src/Auth/Grants.antt =====
-- services/auth-server/internal/application: the grant strategies and their registry.
pub mod ClientCredentials
pub mod Code
pub mod IdToken
pub mod Refresh
pub mod Device
pub mod Saml
pub mod Exchange
pub mod Registry
