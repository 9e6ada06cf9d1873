-- ===== src/Purchases.antt =====
-- Purchases of memberships (backend/app/modules/membership_purchases).
pub mod Model
pub mod Create
pub mod Authorize
pub mod Attempts
pub mod Settle
pub mod Callback
pub mod Queries
mod Tests
