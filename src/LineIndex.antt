-- ===== src/LineIndex.antt =====
-- document/coordinate/index.go and cache.go: the line index of one revision of a document.
pub mod Utf8
pub mod State
pub mod Cache
pub mod Query
pub mod Runes
pub mod Boundaries
pub mod Eviction
pub mod Windows
pub mod Answers
pub mod Positions
pub mod Scan
pub mod Rebuild
pub mod Chunks
pub mod Reads
pub mod Built
mod Tests
