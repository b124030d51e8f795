-- ===== src/Raft.antt =====
-- raft/raft.go: one Raft peer. The operations stand in a module per part of the protocol.
pub mod State
pub mod Persist
pub mod Vote
pub mod Append
pub mod Snapshot
pub mod Leader
pub mod Apply
pub mod Election
pub mod OneVote
pub mod Matching
pub mod Requests
pub mod Replication
pub mod Totality
pub mod Sorting
pub mod Commit
pub mod Backtrack
pub mod Probing
pub mod Durability
pub mod Compaction
pub mod Delivery
pub mod Recovery
pub mod Daemon
pub mod Lapses
pub mod Stale
pub mod Cluster
pub mod Tests
