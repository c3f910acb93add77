-- ===== src/Split/Tree/RoundTrip.antt =====
-- Removing the pane that a split has made: `split` and `remove` of
-- crates/mr-crabs-app/src/model/split.rs.
use mr_crabs.Common.{ℕ, ◌≡◌, ap, ◌∙◌, true, false, some, contains, arith}
use mr_crabs.Split.Axis.{SplitAxis}
use mr_crabs.Split.Tree.{
  SplitTree, leaf, split, holds, panes, split_impl, split_pane, remove, is_leaf,
}
use mr_crabs.Split.Tree.Panes.{panes-eq-leaves, holds-eq-contains}
use mr_crabs.Split.Tree.Removing.{without, remove-eq-without}

module _ {F : Type 0} (half : F) (at : ℕ) (ax : SplitAxis) (new : ℕ) where
  holds-split_impl :
      (t : SplitTree F) → holds t at ≡ true → holds (split_impl half t at ax new).0 new ≡ true
  unfolding holds split_impl
  holds-split_impl (leaf p) h = ground arith
  holds-split_impl (split a r first second) h =
      ground (arith, holds-split_impl first, holds-split_impl second)

  is_leaf-split_impl :
      (t : SplitTree F) → holds t at ≡ true → is_leaf (split_impl half t at ax new).0 ≡ false
  unfolding holds split_impl
  is_leaf-split_impl (leaf p) h = ground arith
  is_leaf-split_impl (split a r first second) h = ground arith

  without-split_impl :
      (t : SplitTree F)
      → holds t at ≡ true
      → holds t new ≡ false
      → without (split_impl half t at ax new).0 new ≡ some t
  unfolding holds split_impl
  without-split_impl (leaf p) h fresh = ground arith
  without-split_impl (split a r first second) h fresh =
      ground (arith, holds-split_impl first, without-split_impl first, without-split_impl second)

  -- Removing the pane that a split has made gives back the tree before the split.
  pub remove-split_pane :
      (t : SplitTree F)
      → contains (panes t) at ≡ true
      → contains (panes t) new ≡ false
      → remove (split_pane half t at ax new).0 new ≡ some (some t)
  unfolding split_pane
  remove-split_pane t h fresh = rw held (
      remove-eq-without new (split_impl half t at ax new).0 (holds-split_impl t held)
        (is_leaf-split_impl t held)
      ∙ ap some
          (without-split_impl t held (rw (panes-eq-leaves t, ← holds-eq-contains t new) at fresh)))
    where
      held : holds t at ≡ true
      held = rw (panes-eq-leaves t, ← holds-eq-contains t at) at h
