-- ===== src/Queue.antt =====
-- src/sastt/adapters/queue/redis_queue.py: tasks, and the task queue over the lists of redis.
pub mod Json
pub mod Task
pub mod Redis
pub mod Tasks
pub mod Keys
pub mod Broker
pub mod Represents
pub mod Refinement
pub mod Counting
pub mod NoLoss
pub mod Recovery
pub mod Stale
