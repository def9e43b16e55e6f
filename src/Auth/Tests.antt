-- ===== src/Auth/Tests.antt =====
-- The auth-server's theorems at concrete inputs.
mod Setting
mod Codes
mod Grants
mod Stores
mod Flow
mod Endpoints
