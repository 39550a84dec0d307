-- ===== src/Persistence.antt =====
-- src/sastt/adapters/persistence/memory.py
pub mod JobStore
pub mod EventStore
pub mod ObjectStore
