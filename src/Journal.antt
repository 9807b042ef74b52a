-- ===== src/Journal.antt =====
-- recovery/journal.go: the append-only recovery journal, its encoding and the operations on its file.
pub mod Bytes
pub mod Payload
pub mod Header
pub mod RoundTrip
pub mod File
pub mod Replay
pub mod Entries
pub mod Recovery
pub mod Recovered
pub mod Appended
pub mod Opening
pub mod Operations
pub mod Tests
mod FileTests
