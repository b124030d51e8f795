-- ===== src/Labgob.antt =====
-- labgob: the checks that the wrapper around encoding/gob makes.
pub mod Types
pub mod Checked
pub mod Closure
pub mod Defaults
pub mod Tests
