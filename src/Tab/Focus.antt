-- ===== src/Tab/Focus.antt =====
-- The focus of a tab is never lost: `focus_pane` and `close_pane` of
-- crates/mr-crabs-app/src/model/tab.rs.
use mr_crabs.Common.{
  ℕ, ◌≡◌, refl, ◌∙◌, inl, inr, Option, some, none, List, [], ◌∷◌, ◌++◌, Bool-cases, if◌then◌else◌,
}
use mr_crabs.Split.Tree.{SplitTree, leaf, split, panes, holds}
use mr_crabs.Split.Tree.Panes.{leaves, panes-eq-leaves}
use mr_crabs.Tab.{TabModel, focus_pane, focus_target, first_pane, is_focused}

first_pane-append :
    (xs ys : List ℕ) (p : ℕ) → first_pane xs ≡ some p → first_pane (xs ++ ys) ≡ some p
first_pane-append [] ys p h = cc
first_pane-append (x ∷ xs) ys p h = h

module _ {F : Type 0} where
  first_pane-leaves : (tree : SplitTree F) → (p : ℕ) × (first_pane (leaves tree) ≡ some p)
  first_pane-leaves (leaf p) = (p, refl)
  first_pane-leaves (split _ _ first second) =
      let (p, e) = first_pane-leaves first in
      (p, first_pane-append (leaves first) (leaves second) p e)

  -- A tree has a first pane.
  first_pane-panes : (tree : SplitTree F) → (p : ℕ) × (first_pane (panes tree) ≡ some p)
  first_pane-panes tree = rw panes-eq-leaves (first_pane-leaves tree)

module _ {F S : Type 0} where
  -- A pane has the focus.
  abbrev pub HasFocus : TabModel F S → Type 0
  HasFocus t = (p : ℕ) × (t.focused_pane ≡ some p)

  pub focus_pane-HasFocus : (t : TabModel F S) (p : ℕ) → HasFocus t → HasFocus (focus_pane t p).0
  unfolding focus_pane
  focus_pane-HasFocus t p h = elim (Bool-cases (holds t.tree p)) [
    | inl held ↦ rw held (p, refl)
    | inr absent ↦ rw absent h
  ]

  pub focus_target-HasFocus :
      (t : TabModel F S) (target : Option ℕ) → HasFocus t → HasFocus (focus_target t target).0
  unfolding focus_target
  focus_target-HasFocus t none h = h
  focus_target-HasFocus t (some p) h = focus_pane-HasFocus t p h

  pub focus_left-HasFocus :
      (t u : TabModel F S) (p : ℕ)
      → u.focused_pane
        ≡ (if is_focused t.focused_pane p then first_pane (panes u.tree) else t.focused_pane)
      → HasFocus t
      → HasFocus u
  focus_left-HasFocus t u p now h = elim (Bool-cases (is_focused t.focused_pane p)) [
    | inl gone ↦ let (q, e) = first_pane-panes u.tree in (q, (rw gone at now) ∙ e)
    | inr stays ↦ (h.0, (rw stays at now) ∙ h.1)
  ]
