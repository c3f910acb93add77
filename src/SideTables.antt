-- ===== src/SideTables.antt =====
-- Tables that give small numbers to values: crates/mr-crabs-terminal/src/side_tables.rs.
pub mod Index
pub mod Styles
pub mod Clusters
pub mod Interning
pub mod Stable
pub mod Restore
pub mod Remap
pub mod Live
pub mod Tests
