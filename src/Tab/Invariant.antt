-- ===== src/Tab/Invariant.antt =====
-- The invariant of a tab (crates/mr-crabs-app/src/model/tab.rs), and the operations that keep it.
use mr_crabs.Common.{
  ℕ, ◌≡◌, refl, inl, inr, Bool, true, Option, none, some, Bool-cases, contains, Distinct, keys,
  keys-update, keys-map_values, IsOrdered, arith,
}
use mr_crabs.Split.Tree.{panes, holds}
use mr_crabs.Split.Tree.Panes.{holds-eq-contains-panes}
use mr_crabs.Tab.{TabModel, PaneModel, new, focus_pane, close_all, focus_target, cycle_pane}

module _ {F S : Type 0} where
  -- The leaves of the tree are distinct and are the keys of the pane map, and the focus is on one.
  pub record IsValid (t : TabModel F S) : Type 0 where
    pub ordered : IsOrdered t.panes
    pub distinct : Distinct (panes t.tree)
    pub same : (p : ℕ) → contains (keys t.panes) p ≡ contains (panes t.tree) p
    pub focused : (p : ℕ) → t.focused_pane ≡ some p → contains (panes t.tree) p ≡ true

  pub new-IsValid : (id : ℕ) (pane : PaneModel S) → IsValid (new {F = F} id pane)
  unfolding new panes
  new-IsValid id pane = record {
    ordered = (tt, tt);
    distinct = (refl, tt);
    same = λ p. refl;
    focused = λ p e. ground arith;
  }

  pub focus_pane-IsValid : (t : TabModel F S) (p : ℕ) → IsValid t → IsValid (focus_pane t p).0
  unfolding focus_pane
  focus_pane-IsValid t p v = elim (Bool-cases (holds t.tree p)) [
    | inr absent ↦ rw absent v
    | inl held ↦ rw held (record {
      ordered = rw keys-update v.ordered;
      distinct = v.distinct;
      same = λ q. rw keys-update (v.same q);
      focused = λ q e. ground (arith, holds-eq-contains-panes t.tree p);
    })
  ]

  pub focus_target-IsValid :
      (t : TabModel F S) (target : Option ℕ) → IsValid t → IsValid (focus_target t target).0
  unfolding focus_target
  focus_target-IsValid t none v = v
  focus_target-IsValid t (some p) v = focus_pane-IsValid t p v

  pub cycle_pane-IsValid :
      (t : TabModel F S) (forward : Bool) → IsValid t → IsValid (cycle_pane t forward).0
  unfolding cycle_pane
  cycle_pane-IsValid t forward v = focus_target-IsValid t _ v

  pub close_all-IsValid :
      (shutdown : S → S) (t : TabModel F S) → IsValid t → IsValid (close_all shutdown t)
  unfolding close_all
  close_all-IsValid shutdown t v = record {
    ordered = rw keys-map_values v.ordered;
    distinct = v.distinct;
    same = λ q. rw keys-map_values (v.same q);
    focused = v.focused;
  }
