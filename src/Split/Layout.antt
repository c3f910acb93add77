-- ===== src/Split/Layout.antt =====
-- The rectangles of the panes: `rects` and `bounds_of` of crates/mr-crabs-app/src/model/split.rs.
-- `none` is the panic of `f32::clamp`.
pub mod Extent
pub mod Tiling
use mr_crabs.Common.{ℕ, ◌-◌, Option, some, List, [], ◌>>=◌, add_u16, sub_u16, insert, lookup}
use mr_crabs.Split.Axis.{SplitAxis, GridRect, GridSize}
use mr_crabs.Split.Float.{Float32}
use mr_crabs.Split.Tree.{SplitTree, leaf, split}

abbrev pub first_bounds : SplitAxis → GridRect → ℕ → GridRect
first_bounds SplitAxis.horizontal b extent = record b { width = extent }
first_bounds SplitAxis.vertical b extent = record b { height = extent }

abbrev pub second_bounds : SplitAxis → GridRect → ℕ → GridRect
second_bounds SplitAxis.horizontal b extent = record b {
  x = add_u16 b.x extent;
  width = sub_u16 b.width extent;
}
second_bounds SplitAxis.vertical b extent = record b {
  y = add_u16 b.y extent;
  height = sub_u16 b.height extent;
}

-- The side that a split along the axis divides.
abbrev pub side : SplitAxis → GridRect → ℕ
side SplitAxis.horizontal b = b.width
side SplitAxis.vertical b = b.height

abbrev pub bounds_of_size : GridSize → GridRect
bounds_of_size size = record { x = 0; y = 0; width = size.cols; height = size.rows }

module _ (f : Float32) where
  -- (f32::from(side) * ratio).round().clamp(1.0, f32::from(side.saturating_sub(1))) as u16
  unfoldable pub first_extent : ℕ → f.Carrier → Option ℕ
  first_extent n ratio = do
    y ← f.clamp (f.of_u16 1) (f.of_u16 (n - 1)) (f.round (f.mul (f.of_u16 n) ratio))
    some (f.to_u16 y)

  unfoldable pub collect_rects :
      SplitTree f.Carrier → GridRect → List (ℕ × GridRect) → Option (List (ℕ × GridRect))
  unfolding first_extent
  collect_rects (leaf pane) b out = some (insert pane b out)
  collect_rects (split ax ratio first second) b out = do
    extent ← first_extent (side ax b) ratio
    out' ← collect_rects first (first_bounds ax b extent) out
    collect_rects second (second_bounds ax b extent) out'

  unfoldable pub rects : SplitTree f.Carrier → GridSize → Option (List (ℕ × GridRect))
  unfolding collect_rects
  rects t size = collect_rects t (bounds_of_size size) []

  unfoldable pub bounds_of : SplitTree f.Carrier → ℕ → GridSize → Option (Option GridRect)
  unfolding rects
  bounds_of t pane size = do m ← rects t size; some (lookup pane m)
