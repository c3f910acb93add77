-- ===== src/Split/Tree/Splitting.antt =====
-- What splitting a pane does: `SplitTree::split` of crates/mr-crabs-app/src/model/split.rs.
use mr_crabs.Common.{
  ℕ, ◌≡◌, arith, contains, insert_after, insert_after-append_left, insert_after-append_right,
  insert_after_of_not_contains,
}
use mr_crabs.Split.Axis.{SplitAxis}
use mr_crabs.Split.Tree.{SplitTree, leaf, split, holds, panes, split_impl, split_pane}
use mr_crabs.Split.Tree.Panes.{leaves, panes-eq-leaves, holds-eq-contains}

module _ {F : Type 0} (half : F) (at : ℕ) (ax : SplitAxis) (new : ℕ) where
  leaves-split_impl :
      (t : SplitTree F)
      → (leaves (split_impl half t at ax new).0 ≡ insert_after at new (leaves t))
        × ((split_impl half t at ax new).1 ≡ holds t at)
  unfolding split_impl holds
  leaves-split_impl (leaf existing) = ground arith
  leaves-split_impl (split a r first second) = ground (
    arith,
    leaves-split_impl first,
    leaves-split_impl second,
    holds-eq-contains first at,
    holds-eq-contains second at,
    insert_after-append_left at new (leaves first) (leaves second),
    insert_after-append_right at new (leaves first) (leaves second),
    insert_after_of_not_contains at new (leaves second),
  )

  -- Splitting puts the new pane directly behind the pane that is split in the depth-first order, and
  -- changes no other entry; a pane that is not there leaves the order as it is. The result says
  -- whether the pane was there.
  pub panes-split_pane :
      (t : SplitTree F)
      → (panes (split_pane half t at ax new).0 ≡ insert_after at new (panes t))
        × ((split_pane half t at ax new).1 ≡ contains (panes t) at)
  unfolding split_pane
  panes-split_pane t = ground (
    arith,
    leaves-split_impl t,
    panes-eq-leaves t,
    panes-eq-leaves (split_pane half t at ax new).0,
    holds-eq-contains t at,
    insert_after_of_not_contains at new (leaves t),
  )
