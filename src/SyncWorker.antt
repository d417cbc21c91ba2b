-- ===== src/SyncWorker.antt =====
-- edlink_rostering/services/sync_worker.py: its reads and writes of the tables, one event, one page,
-- and the drain of an LEA. Proofs are in the modules named for what they prove.
pub mod Reads
pub mod Writes
pub mod Events
pub mod Pages
pub mod Rounds
pub mod Live
pub mod HighWater
pub mod Replay
pub mod Cursors
pub mod Commits
pub mod Blocked
pub mod Drains
pub mod History
pub mod Tenants
pub mod Isolation
pub mod Examples
