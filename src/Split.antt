-- ===== src/Split.antt =====
-- The split tree of a tab's panes: crates/mr-crabs-app/src/model/split.rs.
pub mod Axis
pub mod Float
pub mod Tree
pub mod Resize
pub mod Layout
pub mod Focus
pub mod Tests
