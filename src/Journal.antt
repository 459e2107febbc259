-- ===== src/Journal.antt =====
-- The journal's ring and its checksums: briefs/crc32c.go, briefs/journal_replay.go.
pub mod Crc
pub mod Ring
pub mod Block
pub mod State
pub mod Writer
pub mod Replay
