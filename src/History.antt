-- ===== src/History.antt =====
-- Scrolling and selection over the history and the visible rows: crates/mr-crabs-history.
pub mod Viewport
pub mod Projection
pub mod Selection
pub mod Tests
