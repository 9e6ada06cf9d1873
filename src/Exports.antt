-- ===== src/Exports.antt =====
-- Exports of itineraries (backend/app/modules/exports).
pub mod Model
pub mod Service
pub mod Attempts
pub mod Downloads
pub mod Run
pub mod Consistent
pub mod Claimed
mod Tests
