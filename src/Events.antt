-- ===== src/Events.antt =====
-- src/sastt/domain/events.py
pub mod Log
pub mod Ulid
