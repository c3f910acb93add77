-- ===== src/Split/Tree.antt =====
-- The recursive split tree and its edits: `SplitTree` of crates/mr-crabs-app/src/model/split.rs.
-- A pane identity is its `u64`. A method on `&mut self` returns the new tree with its result.
pub mod Panes
pub mod Splitting
pub mod Removing
pub mod RoundTrip
use mr_crabs.Common.{
  ℕ, ◌+◌, Bool, true, false, not, ◌||◌, Option, none, some, List, [], ◌∷◌, ◌++◌, ◌==◌,
  if◌then◌else◌,
}
use mr_crabs.Split.Axis.{SplitAxis}

pub data SplitTree (F : Type 0) : Type 0 where
  leaf : ℕ → SplitTree F
  split : SplitAxis → F → SplitTree F → SplitTree F → SplitTree F

module _ {F : Type 0} where
  abbrev pub leaf_id : SplitTree F → Option ℕ
  leaf_id (leaf pane) = some pane
  leaf_id (split _ _ _ _) = none

  unfoldable pub len : SplitTree F → ℕ
  len (leaf _) = 1
  len (split _ _ first second) = len first + len second

  unfoldable pub holds : SplitTree F → ℕ → Bool
  holds (leaf existing) pane = existing == pane
  holds (split _ _ first second) pane = holds first pane || holds second pane

  -- The loop over `out`, which `collect_panes` extends at its end.
  unfoldable pub collect_panes : SplitTree F → List ℕ → List ℕ
  collect_panes (leaf pane) out = out ++ pane ∷ []
  collect_panes (split _ _ first second) out = collect_panes second (collect_panes first out)

  unfoldable pub panes : SplitTree F → List ℕ
  unfolding collect_panes
  panes t = collect_panes t []

  -- `half` is the ratio 0.5 of a fresh split.
  unfoldable pub split_impl : F → SplitTree F → ℕ → SplitAxis → ℕ → SplitTree F × Bool
  split_impl half (leaf existing) at ax new =
      if existing == at
      then (split ax half (leaf existing) (leaf new), true)
      else (leaf existing, false)
  split_impl half (split a r first second) at ax new =
      let in_first = split_impl half first at ax new in
      let in_second = split_impl half second at ax new in
      if holds first at
      then (split a r in_first.0 second, in_first.1)
      else if holds second at
      then (split a r first in_second.0, in_second.1)
      else (split a r first second, false)

  unfoldable pub split_pane : F → SplitTree F → ℕ → SplitAxis → ℕ → SplitTree F × Bool
  unfolding holds split_impl
  split_pane half t at ax new = if holds t at then split_impl half t at ax new else (t, false)

  -- `remove_rec`. The `expect` calls of the source stand where the first component is `some`; a
  -- panic there is `none` of the outer option.
  unfoldable pub remove_second :
      SplitAxis
      → F
      → Option (SplitTree F)
      → Option (Option (SplitTree F) × Bool)
      → Option (Option (SplitTree F) × Bool)
  remove_second a r first none = none
  remove_second a r none (some _) = none
  remove_second a r (some first) (some (none, true)) = some (some first, true)
  remove_second a r (some first) (some (some second, true)) =
      some (some (split a r first second), true)
  remove_second a r (some first) (some (some second, false)) =
      some (some (split a r first second), false)
  remove_second a r (some first) (some (none, false)) = none

  unfoldable pub remove_rec : SplitTree F → ℕ → Option (Option (SplitTree F) × Bool)
  unfolding remove_second
  remove_rec (leaf existing) pane =
      if existing == pane then some (none, true) else some (some (leaf existing), false)
  remove_rec (split a r first second) pane =
      let in_second = remove_rec second pane in
      elim (remove_rec first pane) [
        | none ↦ none
        | some (none, true) ↦ some (some second, true)
        | some (some first', true) ↦ some (some (split a r first' second), true)
        | some (kept, false) ↦ remove_second a r kept in_second
      ]

  abbrev pub is_leaf : SplitTree F → Bool
  is_leaf (leaf _) = true
  is_leaf (split _ _ _ _) = false

  -- `remove`: the outer `none` is a panic.
  unfoldable pub remove : SplitTree F → ℕ → Option (Option (SplitTree F))
  unfolding remove_rec
  remove t pane =
      let removed = remove_rec t pane in
      if not (holds t pane) || is_leaf t
      then some none
      else elim removed [ none ↦ none | some (next, _) ↦ some next ]
