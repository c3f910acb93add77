-- ===== src/Tab/Insert.antt =====
-- Splitting the focused pane: `insert_split_pane` of crates/mr-crabs-app/src/model/tab.rs.
use mr_crabs.Common.{
  ℕ, ◌≡◌, refl, sym, ◌∙◌, subst, ◌⊎◌, inl, inr, true, false, none, some, Bool-cases, Option-cases,
  contains, contains-insert_after, insert_after-Distinct, insert, insert-IsOrdered,
  contains-keys-insert, lookup-insert, lookup, keys, lookup-update_self, insert_after, arith,
}
use mr_crabs.Split.Axis.{SplitAxis}
use mr_crabs.Split.Tree.{panes, split_pane, holds}
use mr_crabs.Split.Tree.Panes.{holds-eq-contains-panes}
use mr_crabs.Split.Tree.Splitting.{panes-split_pane}
use mr_crabs.Tab.{
  TabModel, PaneModel, SplitError, no_focused_pane, duplicate_pane, Result, ok, err, gain_focus,
  focus_pane, split_focused, insert_split_pane,
}
use mr_crabs.Tab.Invariant.{IsValid, focus_pane-IsValid}

module _ {F S : Type 0} where
  -- What `insert_split_pane` makes of the tab: its result `r`, and the tab `u` after it.
  abbrev pub Inserts : TabModel F S → PaneModel S → TabModel F S → Result SplitError ℕ → Type 0
  Inserts t pane u r =
      ((contains (keys t.panes) pane.id ≡ true) × (u ≡ t) × (r ≡ err duplicate_pane))
      ⊎ ((contains (keys t.panes) pane.id ≡ false)
          × (t.focused_pane ≡ none)
          × (u ≡ t)
          × (r ≡ err no_focused_pane))
      ⊎ ((focused : ℕ) × (t.focused_pane ≡ some focused)
          × IsValid u
          × (panes u.tree ≡ insert_after focused pane.id (panes t.tree))
          × (lookup pane.id u.panes ≡ some (gain_focus pane))
          × (u.focused_pane ≡ some pane.id)
          × (r ≡ ok pane.id))

module _ {F S : Type 0} (half : F) where
  -- The tab with the new pane in its tree and its map, before the focus moves.
  abbrev inserted : TabModel F S → ℕ → SplitAxis → PaneModel S → TabModel F S
  inserted t focused ax pane = record t {
    tree = (split_pane half t.tree focused ax pane.id).0;
    panes = insert pane.id pane t.panes;
  }

  inserted-IsValid :
      (t : TabModel F S) (focused : ℕ) (ax : SplitAxis) (pane : PaneModel S)
      → IsValid t
      → t.focused_pane ≡ some focused
      → contains (keys t.panes) pane.id ≡ false
      → IsValid (inserted t focused ax pane)
  inserted-IsValid t focused ax pane v here fresh = record {
    ordered = insert-IsOrdered pane.id pane t.panes v.ordered;
    distinct = rw order (
        insert_after-Distinct focused pane.id (panes t.tree) v.distinct
          (sym (v.same pane.id) ∙ fresh));
    same = λ p. rw order (
        ground (
          arith,
          contains-keys-insert p pane.id pane t.panes,
          contains-insert_after focused pane.id p (panes t.tree),
          v.same p,
          v.focused focused here,
        ));
    focused = λ p e.
        rw order
          (ground (arith, contains-insert_after focused pane.id p (panes t.tree), v.focused p e));
  }
    where
      order :
          panes (split_pane half t.tree focused ax pane.id).0
          ≡ insert_after focused pane.id (panes t.tree)
      order = (panes-split_pane half focused ax pane.id t.tree).0

  split_focused-Inserts :
      (t : TabModel F S) (focused : ℕ) (ax : SplitAxis) (pane : PaneModel S)
      → IsValid t
      → t.focused_pane ≡ some focused
      → contains (keys t.panes) pane.id ≡ false
      → split_focused half t focused ax pane
        ≡ ((focus_pane (inserted t focused ax pane) pane.id).0, ok pane.id)
  unfolding split_focused
  split_focused-Inserts t focused ax pane v here fresh =
      rw ((panes-split_pane half focused ax pane.id t.tree).1, v.focused focused here)

  focus_inserted :
      (t : TabModel F S) (focused : ℕ) (ax : SplitAxis) (pane : PaneModel S)
      → IsValid t
      → t.focused_pane ≡ some focused
      → let u = (focus_pane (inserted t focused ax pane) pane.id).0 in
        (panes u.tree ≡ insert_after focused pane.id (panes t.tree))
        × (lookup pane.id u.panes ≡ some (gain_focus pane))
        × (u.focused_pane ≡ some pane.id)
  unfolding focus_pane
  focus_inserted t focused ax pane v here = rw held (
    order,
    lookup-update_self pane.id gain_focus (insert pane.id pane t.panes) pane
        (ground (arith, lookup-insert pane.id pane.id pane t.panes)),
    refl,
  )
    where
      order :
          panes (split_pane half t.tree focused ax pane.id).0
          ≡ insert_after focused pane.id (panes t.tree)
      order = (panes-split_pane half focused ax pane.id t.tree).0

      held : holds (split_pane half t.tree focused ax pane.id).0 pane.id ≡ true
      held =
          rw (holds-eq-contains-panes, order)
            (ground (
              arith,
              contains-insert_after focused pane.id pane.id (panes t.tree),
              v.focused focused here,
            ))

  -- On a valid tab, `insert_split_pane` refuses a pane identity that the tab has already, and a tab
  -- with no focus, and leaves the tab as it is. Otherwise it succeeds: the new pane stands directly
  -- behind the focused one, the map has it, it has the focus, and the tab is valid.
  pub insert_split_pane-Inserts :
      (t : TabModel F S) (ax : SplitAxis) (pane : PaneModel S)
      → IsValid t
      → Inserts t pane (insert_split_pane half t ax pane).0 (insert_split_pane half t ax pane).1
  insert_split_pane-Inserts t ax pane v = elim (Bool-cases (contains (keys t.panes) pane.id)) [
    | inl there ↦ holds_of (refused there) (inl (there, refl, refl))
    | inr fresh ↦ elim (Option-cases t.focused_pane) [
      | inl nowhere ↦ holds_of (unfocused fresh nowhere) (inr (inl (fresh, nowhere, refl, refl)))
      | inr (focused, here) ↦
          let (order, found, moved) = focus_inserted t focused ax pane v here in
          holds_of (inserts focused here fresh) (
            inr (
              inr (
                focused,
                here,
                focus_pane-IsValid (inserted t focused ax pane) pane.id
                    (inserted-IsValid t focused ax pane v here fresh),
                order,
                found,
                moved,
                refl,
              )))
    ]
  ]
    where
      holds_of :
          {w : TabModel F S × Result SplitError ℕ}
          → insert_split_pane half t ax pane ≡ w
          → Inserts t pane w.0 w.1
          → Inserts t pane (insert_split_pane half t ax pane).0 (insert_split_pane half t ax pane).1
      holds_of e = subst (λ w. Inserts t pane w.0 w.1) (sym e)

      refused :
          contains (keys t.panes) pane.id ≡ true
          → insert_split_pane half t ax pane ≡ (t, err duplicate_pane)
      refused there = unfold insert_split_pane in rw there

      unfocused :
          contains (keys t.panes) pane.id ≡ false
          → t.focused_pane ≡ none
          → insert_split_pane half t ax pane ≡ (t, err no_focused_pane)
      unfocused fresh nowhere = unfold insert_split_pane in ground arith

      inserts :
          (focused : ℕ)
          → t.focused_pane ≡ some focused
          → contains (keys t.panes) pane.id ≡ false
          → insert_split_pane half t ax pane
            ≡ ((focus_pane (inserted t focused ax pane) pane.id).0, ok pane.id)
      inserts focused here fresh =
          unfold insert_split_pane in ground (arith, split_focused-Inserts t focused ax pane v)
