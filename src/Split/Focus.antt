-- ===== src/Split/Focus.antt =====
-- Moving the focus: `next` and `neighbor` of crates/mr-crabs-app/src/model/split.rs.
pub mod Cycle
pub mod Nearest
pub mod Neighbor
use mr_crabs.Common.{
  ℕ, suc, ◌+◌, ◌-◌, ◌%◌, Bool, true, false, ◌&&◌, ◌||◌, not, Option, none, some, List, [], ◌∷◌,
  ◌>>=◌, if◌then◌else◌, ◌==◌, ltb, length, get_elem?, lookup, zero,
}
use mr_crabs.Common.Int.{ℤ, pos, sub_ℕ, rem_euclid}
use mr_crabs.Split.Axis.{
  SplitDirection, GridRect, GridSize, axis, perpendicular, overlap_with, gap_to, rect_in_direction,
}
use mr_crabs.Split.Float.{Float32}
use mr_crabs.Split.Tree.{SplitTree, panes}
use mr_crabs.Split.Layout.{rects}

-- `order.iter().position(|pane| *pane == from)`.
unfoldable pub position : List ℕ → ℕ → Option ℕ
position [] from = none
position (p ∷ ps) from =
    let rest = position ps from in
    if p == from then some 0 else elim rest [ none ↦ none | some i ↦ some (suc i) ]

unfoldable pub next_in : List ℕ → ℕ → Bool → Option ℕ
unfolding position
next_in order from forward = do
  i ← position order from
  get_elem? order (rem_euclid (if forward then pos (i + 1) else sub_ℕ i 1) (length order))

unfoldable pub next : {F : Type 0} → SplitTree F → ℕ → Bool → Option ℕ
unfolding next_in panes
next t from forward = next_in (panes t) from forward

-- A candidate with its overlap and its gap.
pub record Score : Type 0 where
  pub pane : ℕ
  pub overlap : ℕ
  pub gap : ℕ

abbrev pub is_better : Score → Option Score → Bool
is_better c none = true
is_better c (some best) =
    ltb best.overlap c.overlap
    || ((c.overlap == best.overlap && ltb c.gap best.gap)
        || (c.overlap == best.overlap && (c.gap == best.gap && ltb c.pane best.pane)))

abbrev pub score : GridRect → SplitDirection → ℕ → GridRect → Score
score from_rect direction pane rect = record {
  pane = pane;
  overlap = overlap_with from_rect rect (perpendicular (axis direction));
  gap = gap_to from_rect rect direction;
}

-- The loop over the rectangles.
unfoldable pub best_neighbor :
    ℕ → GridRect → SplitDirection → Option Score → List (ℕ × GridRect) → Option Score
best_neighbor from from_rect direction best [] = best
best_neighbor from from_rect direction best ((candidate, rect) ∷ m) =
    best_neighbor from from_rect direction
      (if (candidate == from) || not (rect_in_direction from_rect rect direction)
        then best
        else if is_better (score from_rect direction candidate rect) best
        then some (score from_rect direction candidate rect)
        else best)
      m

unfoldable pub neighbor_in : List (ℕ × GridRect) → ℕ → SplitDirection → Option ℕ
unfolding best_neighbor
neighbor_in m from direction = do
  from_rect ← lookup from m
  best ← best_neighbor from from_rect direction none m
  some best.pane

-- The outer `none` is the panic of `rects`.
unfoldable pub neighbor :
    (f : Float32) → SplitTree f.Carrier → ℕ → SplitDirection → GridSize → Option (Option ℕ)
unfolding neighbor_in rects
neighbor f t from direction size = do m ← rects f t size; some (neighbor_in m from direction)
