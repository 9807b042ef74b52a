-- ===== src/Events.antt =====
-- document/events.go: the event hub.
pub mod Hub
pub mod Subscribe
pub mod Delivery
pub mod Replays
pub mod Tests
