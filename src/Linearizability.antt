-- ===== src/Linearizability.antt =====
-- linearizability: the checker of histories that the tests of the service use.
pub mod KvModel
pub mod Agreement
pub mod Tests
