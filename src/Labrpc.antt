-- ===== src/Labrpc.antt =====
-- labrpc: the simulated network between clients and servers.
pub mod Network
pub mod Requests
pub mod Server
pub mod Dispatch
pub mod ClientEnd
pub mod EndToEnd
pub mod Tests
pub mod DispatchTests
