-- ===== src/Itineraries.antt =====
-- Itineraries (backend/app/modules/itineraries).
pub mod Model
pub mod Access
pub mod Snapshots
pub mod Mutate
pub mod Reorder
pub mod Preview
pub mod Operations
pub mod Samples
mod Tests
