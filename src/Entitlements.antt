-- ===== src/Entitlements.antt =====
-- services/entitlements-service: seats of accounts, their owner and their removal, invites, personal
-- accounts and plans.
pub mod Seats
pub mod Ownership
pub mod Removal
pub mod Invites
pub mod Plans
mod Tests
