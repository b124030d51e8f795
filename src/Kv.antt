-- ===== src/Kv.antt =====
-- kvraft: the key/value service over Raft.
pub mod State
pub mod Server
pub mod Apply
pub mod Once
pub mod Snapshots
pub mod Requests
pub mod Lost
pub mod Clerk
pub mod Retries
pub mod Progress
pub mod ProgressTests
pub mod Tests
