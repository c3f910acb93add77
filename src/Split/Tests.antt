-- ===== src/Split/Tests.antt =====
-- Runs of the split tree, and the theorems about it at concrete trees.
pub mod Milli
use mr_crabs.Common.{
  ℕ, ◌≡◌, ◌⊎◌, refl, Bool, true, false, ◌&&◌, not, inl, inr, Option, none, some, List, [], ◌∷◌,
  contains, erase, insert_after, arith,
}
use mr_crabs.Common.Int.{ℤ, pos}
use mr_crabs.Split.Axis.{SplitAxis, SplitDirection, GridRect, GridSize}
use mr_crabs.Split.Tree.{SplitTree, leaf, split, panes, split_pane, remove, is_leaf}
use mr_crabs.Split.Tree.Splitting.{panes-split_pane}
use mr_crabs.Split.Tree.Removing.{remove_lem}
use mr_crabs.Split.Tree.RoundTrip.{remove-split_pane}
use mr_crabs.Split.Resize.{resize}
use mr_crabs.Split.Resize.Laws.{Keeps, resize-Keeps, resize_opposite, resize_root}
use mr_crabs.Split.Layout.{rects, bounds_of_size}
use mr_crabs.Split.Layout.Tiling.{HasRatios, Tiles, Narrow, rects-Tiles, rects-Narrow}
use mr_crabs.Split.Focus.{next, neighbor, neighbor_in, Score}
use mr_crabs.Split.Focus.Cycle.{next-next}
use mr_crabs.Split.Focus.Neighbor.{neighbor_in-IsBest}
use mr_crabs.Split.Focus.Nearest.{Candidate, NoCandidate, IsBest}
use Milli.{milli, milli-IsIeee}

-- Pane 1 on the left; 2 above 3 on the right.
abbrev nested : SplitTree ℤ
nested =
    split SplitAxis.horizontal (pos 500) (leaf 1)
      (split SplitAxis.vertical (pos 500) (leaf 2) (leaf 3))

abbrev grid : GridSize
grid = record { cols = 80; rows = 24 }

abbrev rect : ℕ → ℕ → ℕ → ℕ → GridRect
rect x y w h = record { x = x; y = y; width = w; height = h }

abbrev nested_rects : List (ℕ × GridRect)
nested_rects = (1, rect 0 0 40 24) ∷ (2, rect 40 0 40 12) ∷ (3, rect 40 12 40 12) ∷ []

rects-nested : rects milli nested grid ≡ some nested_rects
unfolding rects
rects-nested = refl

next_runs : next nested 3 true ≡ some 1
unfolding next
next_runs = refl

neighbor_runs : neighbor milli nested 1 SplitDirection.right grid ≡ some (some 2)
unfolding neighbor
neighbor_runs = refl

resize_runs :
    resize milli nested 1 SplitDirection.left (pos 10_000)
    ≡ some (
      split SplitAxis.horizontal
          (pos 900)
          (leaf 1)
          (split SplitAxis.vertical (pos 500) (leaf 2) (leaf 3)),
      true,
    )
unfolding resize
resize_runs = refl

remove_lem_example :
    (((contains (panes nested) 2 && not (is_leaf nested)) ≡ false) × (remove nested 2 ≡ some none))
    ⊎ ((t' : SplitTree ℤ) × ((contains (panes nested) 2 && not (is_leaf nested)) ≡ true)
        × (remove nested 2 ≡ some (some t'))
        × (panes t' ≡ erase 2 (panes nested)))
remove_lem_example = remove_lem 2 nested

remove-split_pane_example :
    remove (split_pane (pos 500) nested 2 SplitAxis.vertical 4).0 4 ≡ some (some nested)
unfolding panes
remove-split_pane_example = remove-split_pane (pos 500) 2 SplitAxis.vertical 4 nested refl refl

nested-HasRatios : HasRatios milli nested
nested-HasRatios =
    (record { above = refl; below = refl }, tt, (record { above = refl; below = refl }, tt, tt))

rects-Tiles_example :
    ((m : List (ℕ × GridRect)) × (rects milli nested grid ≡ some m)
      × Tiles milli nested (bounds_of_size grid) [] m)
    ⊎ ((rects milli nested grid ≡ none) × Narrow milli nested (bounds_of_size grid))
rects-Tiles_example =
    rects-Tiles milli milli-IsIeee nested grid (refl, (refl, (refl, tt))) nested-HasRatios
      (omega arith) (omega arith)

one_column : GridSize
one_column = record { cols = 1; rows = 24 }

rects-Narrow_example : rects milli nested one_column ≡ none
unfolding one_column
rects-Narrow_example = rects-Narrow milli milli-IsIeee nested one_column (
    Narrow.here SplitAxis.horizontal (pos 500) (leaf 1)
      (split SplitAxis.vertical (pos 500) (leaf 2) (leaf 3)) (bounds_of_size one_column)
      (omega arith))

resize-Keeps_example :
    (t' : SplitTree ℤ) × (moved : Bool) × (resize milli nested 3 SplitDirection.up (pos 200)
      ≡ some (t', moved))
    × Keeps milli nested t' moved
resize-Keeps_example = resize-Keeps milli milli-IsIeee nested 3 SplitDirection.up (pos 200)

-- Pane 3 stands in two horizontal splits, and the outer divider moves.
abbrev row : SplitTree ℤ
row =
    split SplitAxis.horizontal (pos 500) (leaf 1)
      (split SplitAxis.horizontal (pos 500) (leaf 2) (leaf 3))

next-next_example :
    ((contains (panes nested) 3 ≡ false) × (next nested 3 true ≡ none))
    ⊎ ((to : ℕ) × (contains (panes nested) 3 ≡ true)
        × (contains (panes nested) to ≡ true)
        × (next nested 3 true ≡ some to)
        × (next nested to false ≡ some 3))
unfolding panes
next-next_example = next-next nested 3 true (refl, (refl, (refl, tt)))

neighbor_in-IsBest_example :
    ((neighbor_in nested_rects 1 SplitDirection.right ≡ none)
      × NoCandidate 1 (rect 0 0 40 24) SplitDirection.right nested_rects)
    ⊎ ((s : Score) × (neighbor_in nested_rects 1 SplitDirection.right ≡ some s.pane)
        × Candidate 1 (rect 0 0 40 24) SplitDirection.right nested_rects s
        × IsBest 1 (rect 0 0 40 24) SplitDirection.right s nested_rects)
neighbor_in-IsBest_example =
    neighbor_in-IsBest 1 (rect 0 0 40 24) SplitDirection.right nested_rects refl
