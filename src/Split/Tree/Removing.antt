-- ===== src/Split/Tree/Removing.antt =====
-- What removing a pane does: `SplitTree::remove` of crates/mr-crabs-app/src/model/split.rs.
use mr_crabs.Common.{
  ℕ, ◌≡◌, ◌⊎◌, refl, sym, ap, ◌∙◌, true, false, not, ◌&&◌, if◌then◌else◌, inl, inr, Option, none,
  some, List, [], ◌++◌, append-nil, arith, contains, ◌==◌, Bool-cases, erase, erase-append_left,
  erase-append_right,
}
use mr_crabs.Split.Axis.{SplitAxis}
use mr_crabs.Split.Tree.{SplitTree, leaf, split, holds, panes, remove_rec, remove, is_leaf}
use mr_crabs.Split.Tree.Panes.{leaves, panes-eq-leaves, holds-eq-contains}

module _ {F : Type 0} where
  abbrev pub join :
      SplitAxis → F → Option (SplitTree F) → Option (SplitTree F) → Option (SplitTree F)
  join a r none t = t
  join a r (some first) none = some first
  join a r (some first) (some second) = some (split a r first second)

  -- The tree without the leaf, its parent collapsed into the sibling; `none` for the whole tree.
  abbrev pub without : SplitTree F → ℕ → Option (SplitTree F)
  without (leaf existing) p = if existing == p then none else some (leaf existing)
  without (split a r first second) p =
      let in_first = without first p in
      let in_second = without second p in
      if holds first p then join a r in_first (some second) else join a r (some first) in_second

  pub without_of_not_holds : (p : ℕ) (t : SplitTree F) → holds t p ≡ false → without t p ≡ some t
  unfolding holds
  without_of_not_holds p (leaf existing) h = ground arith
  without_of_not_holds p (split a r first second) h = ground (arith, without_of_not_holds p second)

  remove_rec-eq-without : (p : ℕ) (t : SplitTree F) → remove_rec t p ≡ some (without t p, holds t p)
  unfolding remove_rec holds
  remove_rec-eq-without p (leaf existing) = ground arith
  remove_rec-eq-without p (split a r first second) = ground (
    arith,
    remove_rec-eq-without p first,
    remove_rec-eq-without p second,
    without_of_not_holds p first,
    without_of_not_holds p second,
  )

  abbrev leaves_or_nil : Option (SplitTree F) → List ℕ
  leaves_or_nil none = []
  leaves_or_nil (some t) = leaves t

  leaves-join :
      (a : SplitAxis) (r : F) (s t : Option (SplitTree F))
      → leaves_or_nil (join a r s t) ≡ leaves_or_nil s ++ leaves_or_nil t
  leaves-join a r none t = refl
  leaves-join a r (some first) none = sym (append-nil (leaves first))
  leaves-join a r (some first) (some second) = refl

  leaves-without : (p : ℕ) (t : SplitTree F) → leaves_or_nil (without t p) ≡ erase p (leaves t)
  unfolding holds
  leaves-without p (leaf existing) = ground arith
  leaves-without p (split a r first second) = elim (Bool-cases (holds first p)) [
    | inl h ↦
        rw (h, leaves-join a r (without first p) (some second), leaves-without p first)
          (sym (erase-append_left p (leaves first) (leaves second) (rw holds-eq-contains at h)))
    | inr h ↦
        rw (h, leaves-join a r (some first) (without second p), leaves-without p second)
          (sym (erase-append_right p (leaves first) (leaves second) (rw holds-eq-contains at h)))
  ]

  without_split :
      (p : ℕ) (a : SplitAxis) (r : F) (first second : SplitTree F)
      → (t : SplitTree F) × (without (split a r first second) p ≡ some t)
  without_split p a r first second = elim (Bool-cases (holds first p)) [
    | inl h ↦ rw h (join_some_right (without first p))
    | inr h ↦ rw h (join_some_left (without second p))
  ]
    where
      join_some_right :
          (s : Option (SplitTree F)) → (t : SplitTree F) × (join a r s (some second) ≡ some t)
      join_some_right none = (second, refl)
      join_some_right (some s) = (split a r s second, refl)

      join_some_left :
          (s : Option (SplitTree F)) → (t : SplitTree F) × (join a r (some first) s ≡ some t)
      join_some_left none = (first, refl)
      join_some_left (some s) = (split a r first s, refl)

  pub remove-eq-without :
      (p : ℕ) (t : SplitTree F)
      → holds t p ≡ true
      → is_leaf t ≡ false
      → remove t p ≡ some (without t p)
  unfolding remove
  remove-eq-without p t h l = ground (arith, remove_rec-eq-without p t)

  -- `remove` never panics. It refuses a pane that is not there and a tree that is one leaf, and
  -- otherwise takes the pane out of the depth-first order and leaves the rest as it is.
  pub remove_lem :
      (p : ℕ) (t : SplitTree F)
      → (((contains (panes t) p && not (is_leaf t)) ≡ false) × (remove t p ≡ some none))
        ⊎ ((t' : SplitTree F) × ((contains (panes t) p && not (is_leaf t)) ≡ true)
            × (remove t p ≡ some (some t'))
            × (panes t' ≡ erase p (panes t)))
  unfolding remove
  remove_lem p (leaf existing) = inl (ground arith, ground arith)
  remove_lem p (split a r first second) = elim (Bool-cases (holds t p)) [
    | inl h ↦
        let (t', e) = without_split p a r first second in
        inr (
          t',
          rw (panes-eq-leaves t, ← holds-eq-contains t p, h),
          remove-eq-without p t h refl ∙ ap some e,
          rw (panes-eq-leaves t', panes-eq-leaves t, ← leaves-without p t, e),
        )
    | inr h ↦ inl (rw (panes-eq-leaves t, ← holds-eq-contains t p, h), ground arith)
  ]
    where
      t : SplitTree F
      t = split a r first second
