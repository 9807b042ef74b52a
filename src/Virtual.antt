-- ===== src/Virtual.antt =====
-- document/virtual/window.go: the choice of the pages of a window, within a budget.
pub mod Window
pub mod Requests
pub mod Bounds
pub mod Fragments
pub mod Choice
pub mod Pages
mod Tests
