-- ===== src/Examples.antt =====
-- Concrete inputs, and what the theorems say of them.
mod Merging
mod Speakers
mod Words
mod Links
mod Logs
mod Stores
mod Sounds
mod Queues
mod Streams
mod Configs
mod Regions
mod Reconciles
mod Attempts
