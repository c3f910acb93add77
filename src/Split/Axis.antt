-- ===== src/Split/Axis.antt =====
-- Axes, directions and rectangles: crates/mr-crabs-app/src/model/split.rs. Coordinates are `u16`.
pub use mr_crabs.Grid.{GridSize}
use mr_crabs.Common.{ℕ, ◌-◌, Bool, true, false, leb, min, max, saturating_add_u16}

pub data SplitAxis : Type 0 where
  horizontal vertical : SplitAxis

abbrev pub perpendicular : SplitAxis → SplitAxis
perpendicular SplitAxis.horizontal = SplitAxis.vertical
perpendicular SplitAxis.vertical = SplitAxis.horizontal

abbrev pub axis_eq : SplitAxis → SplitAxis → Bool
axis_eq SplitAxis.horizontal SplitAxis.horizontal = true
axis_eq SplitAxis.vertical SplitAxis.vertical = true
axis_eq _ _ = false

pub data SplitDirection : Type 0 where
  up down left right : SplitDirection

abbrev pub axis : SplitDirection → SplitAxis
axis SplitDirection.up = SplitAxis.vertical
axis SplitDirection.down = SplitAxis.vertical
axis SplitDirection.left = SplitAxis.horizontal
axis SplitDirection.right = SplitAxis.horizontal

pub record GridRect : Type 0 where
  pub x : ℕ
  pub y : ℕ
  pub width : ℕ
  pub height : ℕ

abbrev pub right_edge : GridRect → ℕ
right_edge r = saturating_add_u16 r.x r.width

abbrev pub bottom_edge : GridRect → ℕ
bottom_edge r = saturating_add_u16 r.y r.height

abbrev pub overlap_with : GridRect → GridRect → SplitAxis → ℕ
overlap_with r other SplitAxis.horizontal = min (right_edge r) (right_edge other) - max r.x other.x
overlap_with r other SplitAxis.vertical = min (bottom_edge r) (bottom_edge other) - max r.y other.y

abbrev pub gap_to : GridRect → GridRect → SplitDirection → ℕ
gap_to r other SplitDirection.up = r.y - bottom_edge other
gap_to r other SplitDirection.down = other.y - bottom_edge r
gap_to r other SplitDirection.left = r.x - right_edge other
gap_to r other SplitDirection.right = other.x - right_edge r

abbrev pub rect_in_direction : GridRect → GridRect → SplitDirection → Bool
rect_in_direction from candidate SplitDirection.up = leb (bottom_edge candidate) from.y
rect_in_direction from candidate SplitDirection.down = leb (bottom_edge from) candidate.y
rect_in_direction from candidate SplitDirection.left = leb (right_edge candidate) from.x
rect_in_direction from candidate SplitDirection.right = leb (right_edge from) candidate.x
