-- ===== src/Offline.antt =====
-- src/sastt/application/offline_pipeline.py: the time that the stages of the offline pipeline work on.
pub mod Regions
pub mod Difference
pub mod Crops
pub mod Speakers
pub mod Reconciling
pub mod Overlaps
pub mod Attempts
