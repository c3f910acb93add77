-- ===== src/Split/Resize.antt =====
-- Moving a divider: `resize` of crates/mr-crabs-app/src/model/split.rs. `none` is a panic.
pub mod Laws
use mr_crabs.Common.{ℕ, Bool, true, false, ◌&&◌, ◌||◌, Option, some, ◌>>=◌, if◌then◌else◌}
use mr_crabs.Split.Axis.{SplitAxis, SplitDirection, axis, axis_eq}
use mr_crabs.Split.Float.{Float32}
use mr_crabs.Split.Tree.{SplitTree, leaf, split, holds}

module _ (f : Float32) where
  -- The branch that moves the divider of a split.
  unfoldable pub move_divider :
      SplitAxis
      → f.Carrier
      → SplitTree f.Carrier
      → SplitTree f.Carrier
      → f.Carrier
      → Option (SplitTree f.Carrier × Bool)
  move_divider ax ratio first second adjustment = do
    next ← f.clamp f.ratio_min f.ratio_max (f.add ratio adjustment)
    some (
        if f.gt (f.abs (f.sub next ratio)) f.epsilon
        then (split ax next first second, true)
        else (split ax ratio first second, false))

  unfoldable pub resize :
      SplitTree f.Carrier → ℕ → SplitDirection → f.Carrier → Option (SplitTree f.Carrier × Bool)
  unfolding move_divider holds
  resize (leaf p) pane direction delta = some (leaf p, false)
  resize (split ax ratio first second) pane direction delta =
      let below_first = resize first pane direction delta in
      let below_second = resize second pane direction delta in
      if axis_eq ax (axis direction) && (holds first pane || holds second pane)
      then move_divider ax ratio first second (if holds first pane then delta else f.neg delta)
      else if holds first pane
      then (do (t, moved) ← below_first; some (split ax ratio t second, moved))
      else if holds second pane
      then (do (t, moved) ← below_second; some (split ax ratio first t, moved))
      else some (split ax ratio first second, false)
