-- ===== src/Undo.antt =====
-- document/undo_store.go: the file that keeps the bytes which undo and redo need.
pub mod Store
pub mod Rewrite
pub mod Texts
pub mod References
pub mod Copies
pub mod Rewritten
mod Tests
