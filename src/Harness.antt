-- ===== src/Harness.antt =====
-- raft/config.go and kvraft/config.go: the harness that runs a cluster of Raft peers on the simulated network and checks
-- what they do.
pub mod Config
pub mod Agreement
pub mod Committed
pub mod Checks
pub mod Leaders
pub mod OneLeader
pub mod Servers
pub mod Ends
pub mod Touched
pub mod Wiring
pub mod Partition
pub mod Starting
pub mod Made
pub mod MakeConfig
pub mod Service
pub mod Links
pub mod Parts
pub mod KvConfig
pub mod Minority
pub mod KvStart
pub mod KvMade
pub mod FreshEnds
pub mod KvRestart
pub mod KvClients
pub mod Tests
pub mod NetworkTests
pub mod One
pub mod KvTests
