-- ===== src/Events.antt =====
-- The outbox, its publisher and the consumers of its events.
pub mod Outbox
pub mod Publisher
pub mod Consumer
mod Tests
