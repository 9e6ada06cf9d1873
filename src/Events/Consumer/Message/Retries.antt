-- ===== src/Events/Consumer/Message/Retries.antt =====
-- How often a message is tried.
