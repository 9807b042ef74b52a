-- ===== src/Coordinate.antt =====
-- document/coordinate: change maps, which carry anchors from one revision to another.
pub mod ChangeMap
pub mod Batch
pub mod Compose
pub mod Suffix
pub mod Validity
pub mod Transform
pub mod Documents
pub mod Stable
pub mod Batches
pub mod Tests
