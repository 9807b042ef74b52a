-- ===== src/Store.antt =====
-- document/store/tree.go: the disk-backed persistent Piece Tree.
pub mod Node
pub mod Content
pub mod Split
pub mod Order
pub mod Tree
pub mod Compact
pub mod Rebuild
pub mod Invariant
pub mod Auto
pub mod Splice
pub mod Edit
pub mod Replace
pub mod Lifecycle
pub mod Read
pub mod Reading
pub mod Export
pub mod Tests
pub mod ReadTests
