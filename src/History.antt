-- ===== src/History.antt =====
-- document/change_history.go: the ring of retained change maps.
pub mod Ring
pub mod Changes
pub mod Retention
pub mod Append
pub mod Chain
pub mod Between
pub mod Tests
