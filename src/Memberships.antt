-- ===== src/Memberships.antt =====
-- Membership plans and memberships: backend/app/modules/memberships.
pub mod Model
pub mod Plans
pub mod Grants
mod Tests
