-- ===== src/Tab/Close.antt =====
-- Closing a pane: `close_pane` of crates/mr-crabs-app/src/model/tab.rs.
use mr_crabs.Common.{
  ℕ, ◌≤◌, ◌≡◌, refl, ◌∙◌, ◌⊎◌, inl, inr, true, false, Option, some, List, [], ◌∷◌, if◌then◌else◌,
  leb, Bool-cases, contains, erase, contains-erase, erase-Distinct, update, keys-update,
  remove_key-IsOrdered, contains-keys-remove_key, arith,
}
use mr_crabs.Split.Tree.{SplitTree, leaf, split, len, panes, is_leaf}
use mr_crabs.Split.Tree.Removing.{remove_lem}
use mr_crabs.Tab.{
  TabModel, ClosePaneOutcome, closed, tab_empty, end_session, first_pane, is_focused, drop_pane,
  close_pane,
}
use mr_crabs.Tab.Invariant.{IsValid}

module _ {F : Type 0} where
  len_pos : (t : SplitTree F) → 1 ≤ len t
  unfolding len
  len_pos (leaf p) = omega arith
  len_pos (split _ _ first second) = omega (arith, len_pos first)

  leb-len : (t : SplitTree F) → leb (len t) 1 ≡ is_leaf t
  unfolding len
  leb-len (leaf p) = refl
  leb-len (split _ _ first second) = ground (arith, len_pos first, len_pos second)

contains-first_pane : (xs : List ℕ) (p : ℕ) → first_pane xs ≡ some p → contains xs p ≡ true
contains-first_pane [] p h = cc
contains-first_pane (x ∷ xs) p h = ground arith

module _ {F S : Type 0} (shutdown : S → S) where
  ended-IsValid :
      (t : TabModel F S) (p : ℕ)
      → IsValid t
      → IsValid (record t { panes = update p (end_session shutdown) t.panes })
  ended-IsValid t p v = record {
    ordered = rw keys-update v.ordered;
    distinct = v.distinct;
    same = λ q. rw keys-update (v.same q);
    focused = v.focused;
  }

  drop_pane-IsValid :
      (t : TabModel F S) (p : ℕ) (root : SplitTree F)
      → IsValid t
      → panes root ≡ erase p (panes t.tree)
      → IsValid (drop_pane shutdown t p root)
  unfolding drop_pane
  drop_pane-IsValid t p root v order = record {
    ordered =
        remove_key-IsOrdered p (update p (end_session shutdown) t.panes) (rw keys-update v.ordered);
    distinct = rw order (erase-Distinct p (panes t.tree) v.distinct);
    same = λ q.
        contains-keys-remove_key q p (update p (end_session shutdown) t.panes)
          (rw keys-update v.ordered)
        ∙ rw (keys-update, order, contains-erase p q (panes t.tree) v.distinct, v.same q);
    focused = λ q e. elim (Bool-cases (is_focused t.focused_pane p)) [
      | inl gone ↦ contains-first_pane (panes root) q (rw gone at e)
      | inr stays ↦
          let e' : t.focused_pane ≡ some q = rw stays at e in
          rw (order, contains-erase p q (panes t.tree) v.distinct) (ground (arith, v.focused q e'))
    ];
  }

  -- What `close_pane` makes of the tab.
  abbrev pub Closes : TabModel F S → ℕ → Option (TabModel F S × ClosePaneOutcome) → Type 0
  Closes t p r =
      ((is_leaf t.tree ≡ true)
        × (r ≡ some (record t { panes = update p (end_session shutdown) t.panes }, tab_empty)))
      ⊎ ((is_leaf t.tree ≡ false) × (contains (panes t.tree) p ≡ false) × (r ≡ some (t, tab_empty)))
      ⊎ ((u : TabModel F S) × (contains (panes t.tree) p ≡ true)
          × (r ≡ some (u, closed p))
          × IsValid u
          × (panes u.tree ≡ erase p (panes t.tree))
          × (u.focused_pane ≡ (
              if is_focused t.focused_pane p then first_pane (panes u.tree) else t.focused_pane)))

  -- On a valid tab `close_pane` never panics. On a single pane it ends the session of that pane and
  -- reports `TabEmpty`; an unknown pane it reports as `TabEmpty` too, and changes nothing. Any other
  -- pane it takes out of the order and keeps the tab valid; the focus, if it was there, goes to the
  -- first pane of the order, and else stays.
  pub close_pane-Closes :
      (t : TabModel F S) (p : ℕ) → IsValid t → Closes t p (close_pane shutdown t p)
  close_pane-Closes t p v = elim (Bool-cases (is_leaf t.tree)) [
    | inl single ↦ inl (single, unfold close_pane in rw (leb-len t.tree, single))
    | inr many ↦ elim (remove_lem p t.tree) [
      | inl (absent, e) ↦
          inr
            (inl (many, ground (arith, absent), unfold close_pane in rw (leb-len t.tree, many, e)))
      | inr (root, present, e, order) ↦ inr (
          inr (
            drop_pane shutdown t p root,
            ground (arith, present),
            unfold close_pane in rw (leb-len t.tree, many, e),
            drop_pane-IsValid t p root v order,
            unfold drop_pane in order,
            unfold drop_pane in refl,
          ))
    ]
  ]
