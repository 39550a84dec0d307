-- ===== src/Audio.antt =====
-- src/sastt/domain/audio.py
pub mod Time
pub mod Interval
pub mod Merge
pub mod Buffer
