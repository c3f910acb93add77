-- ===== src/Tab/Reach.antt =====
-- The tabs that the operations of crates/mr-crabs-app/src/model/tab.rs can reach.
use mr_crabs.Common.{
  ℕ, ◌≡◌, refl, sym, subst, inl, inr, Bool, true, contains, Option, some, Option-cases, arith,
}
use mr_crabs.Split.Axis.{SplitAxis, SplitDirection, GridSize}
use mr_crabs.Split.Float.{Float32, IsIeee}
use mr_crabs.Split.Tree.{SplitTree, panes}
use mr_crabs.Split.Tree.Panes.{leaves, panes-eq-leaves}
use mr_crabs.Split.Resize.Laws.{resize-Keeps}
use mr_crabs.Split.Focus.{neighbor}
use mr_crabs.Tab.{
  TabModel, PaneModel, closed, new, focus_pane, focus_target, insert_split_pane, close_pane,
  close_all, cycle_pane, goto_split, resize_split, update_title_from_focused_pane,
}
use mr_crabs.Tab.Invariant.{
  IsValid, new-IsValid, focus_pane-IsValid, focus_target-IsValid, cycle_pane-IsValid,
  close_all-IsValid,
}
use mr_crabs.Tab.Focus.{HasFocus, focus_pane-HasFocus, focus_target-HasFocus, focus_left-HasFocus}
use mr_crabs.Tab.Insert.{insert_split_pane-Inserts}
use mr_crabs.Tab.Close.{close_pane-Closes}

module _ (f : Float32) {S : Type 0} (shutdown : S → S) where
  -- One call of an operation that leaves the tab open.
  pub data Step (t : TabModel f.Carrier S) : TabModel f.Carrier S → Type 0 where
    focus : (p : ℕ) → Step t (focus_pane t p).0
    inserts : (ax : SplitAxis) (pane : PaneModel S) → Step t (insert_split_pane f.half t ax pane).0
    closes :
        (p : ℕ) (u : TabModel f.Carrier S) → close_pane shutdown t p ≡ some (u, closed p) → Step t u
    ends : Step t (close_all shutdown t)
    cycles : (forward : Bool) → Step t (cycle_pane t forward).0
    goes :
        (direction : SplitDirection) (size : GridSize) (u : TabModel f.Carrier S) (to : Option ℕ)
        → goto_split f t direction size ≡ some (u, to)
        → Step t u
    resizes :
        (direction : SplitDirection) (delta : f.Carrier) (u : TabModel f.Carrier S) (moved : Bool)
        → resize_split f t direction delta ≡ some (u, moved)
        → Step t u
    titles : Step t (update_title_from_focused_pane t)

  pub data Reach (t : TabModel f.Carrier S) : TabModel f.Carrier S → Type 0 where
    here : Reach t t
    next : {u w : TabModel f.Carrier S} → Reach t u → Step u w → Reach t w

module _ (f : Float32) (laws : IsIeee f) {S : Type 0} (shutdown : S → S) where
  insert-IsValid :
      (t : TabModel f.Carrier S) (ax : SplitAxis) (pane : PaneModel S)
      → IsValid t
      → IsValid (insert_split_pane f.half t ax pane).0
  insert-IsValid t ax pane v = elim (insert_split_pane-Inserts f.half t ax pane v) [
    | inl (_, same, _) ↦ subst IsValid (sym same) v
    | inr (inl (_, _, same, _)) ↦ subst IsValid (sym same) v
    | inr (inr (_, _, w, _, _, _, _)) ↦ w
  ]

  close-IsValid :
      (t u : TabModel f.Carrier S) (p : ℕ)
      → close_pane shutdown t p ≡ some (u, closed p)
      → IsValid t
      → IsValid u
  close-IsValid t u p e v = elim (close_pane-Closes shutdown t p v) [
    | inl (_, e') ↦ absurd (cc)
    | inr (inl (_, _, e')) ↦ absurd (cc)
    | inr (inr (u', _, e', w, _, _)) ↦ let same : u' ≡ u = cc in subst IsValid same w
  ]

  retreed :
      (t : TabModel f.Carrier S) (tree' : SplitTree f.Carrier)
      → leaves tree' ≡ leaves t.tree
      → IsValid t
      → IsValid (record t { tree = tree' })
  retreed t tree' order v = record {
    ordered = v.ordered;
    distinct = rw (panes-eq-leaves, order, ← panes-eq-leaves) v.distinct;
    same = λ p. rw (panes-eq-leaves, order, ← panes-eq-leaves) (v.same p);
    focused = λ p e. rw (panes-eq-leaves, order, ← panes-eq-leaves) (v.focused p e);
  }

  resize-IsValid :
      (t u : TabModel f.Carrier S) (direction : SplitDirection) (delta : f.Carrier) (moved : Bool)
      → resize_split f t direction delta ≡ some (u, moved)
      → IsValid t
      → IsValid u
  resize-IsValid t u direction delta moved e v = elim (Option-cases t.focused_pane) [
    | inl nowhere ↦ let same : t ≡ u = unfold resize_split in ground arith in subst IsValid same v
    | inr (focused, there) ↦
        let (tree', moved', e', k) = resize-Keeps f laws t.tree focused direction delta in
        let same : record t { tree = tree' } ≡ u = unfold resize_split in ground (arith, e') in
        subst IsValid same (retreed t tree' k.order v)
  ]

  pub goto-IsValid :
      (t u : TabModel f.Carrier S) (direction : SplitDirection) (size : GridSize) (to : Option ℕ)
      → goto_split f t direction size ≡ some (u, to)
      → IsValid t
      → IsValid u
  goto-IsValid t u direction size to e v = elim (Option-cases t.focused_pane) [
    | inl nowhere ↦ let same : t ≡ u = unfold goto_split in ground arith in subst IsValid same v
    | inr (from, there) ↦ elim (Option-cases (neighbor f t.tree from direction size)) [
      | inl panic ↦ absurd (unfold goto_split in ground (arith, panic, there))
      | inr (target, found) ↦
          let same : (focus_target t target).0 ≡ u =
            unfold goto_split in ground (arith, found, there) in
          subst IsValid same (focus_target-IsValid t target v)
    ]
  ]

  update_title-IsValid :
      (t : TabModel f.Carrier S) → IsValid t → IsValid (update_title_from_focused_pane t)
  unfolding update_title_from_focused_pane
  update_title-IsValid t v = record {
    ordered = v.ordered;
    distinct = v.distinct;
    same = v.same;
    focused = v.focused;
  }

  Step-IsValid : {t u : TabModel f.Carrier S} → Step f shutdown t u → IsValid t → IsValid u
  Step-IsValid {t} (focus p) v = focus_pane-IsValid t p v
  Step-IsValid {t} (inserts ax pane) v = insert-IsValid t ax pane v
  Step-IsValid {t} {u} (closes p _ e) v = close-IsValid t u p e v
  Step-IsValid {t} ends v = close_all-IsValid shutdown t v
  Step-IsValid {t} (cycles forward) v = cycle_pane-IsValid t forward v
  Step-IsValid {t} {u} (goes direction size _ to e) v = goto-IsValid t u direction size to e v
  Step-IsValid {t} {u} (resizes direction delta _ moved e) v =
      resize-IsValid t u direction delta moved e v
  Step-IsValid {t} titles v = update_title-IsValid t v

  Reach-IsValid : {t u : TabModel f.Carrier S} → Reach f shutdown t u → IsValid t → IsValid u
  Reach-IsValid here v = v
  Reach-IsValid (next r s) v = Step-IsValid s (Reach-IsValid r v)

  Step-HasFocus :
      {t u : TabModel f.Carrier S} → Step f shutdown t u → IsValid t → HasFocus t → HasFocus u
  Step-HasFocus {t} (focus p) v h = focus_pane-HasFocus t p h
  Step-HasFocus {t} (inserts ax pane) v h = elim (insert_split_pane-Inserts f.half t ax pane v) [
    | inl (_, same, _) ↦ subst HasFocus (sym same) h
    | inr (inl (_, _, same, _)) ↦ subst HasFocus (sym same) h
    | inr (inr (_, _, _, _, _, now, _)) ↦ (pane.id, now)
  ]
  Step-HasFocus {t} {u} (closes p _ e) v h = elim (close_pane-Closes shutdown t p v) [
    | inl (_, e') ↦ absurd (cc)
    | inr (inl (_, _, e')) ↦ absurd (cc)
    | inr (inr (u', _, e', _, _, now)) ↦
        let same : u' ≡ u = cc in subst HasFocus same (focus_left-HasFocus t u' p now h)
  ]
  Step-HasFocus {t} ends v h = unfold close_all in h
  Step-HasFocus {t} (cycles forward) v h = unfold cycle_pane in focus_target-HasFocus t _ h
  Step-HasFocus {t} {u} (goes direction size _ to e) v h = elim (Option-cases t.focused_pane) [
    | inl nowhere ↦ absurd (cc (nowhere, h.1))
    | inr (from, there) ↦ elim (Option-cases (neighbor f t.tree from direction size)) [
      | inl panic ↦ absurd (unfold goto_split in ground (arith, panic, there))
      | inr (target, found) ↦
          let same : (focus_target t target).0 ≡ u =
            unfold goto_split in ground (arith, found, there) in
          subst HasFocus same (focus_target-HasFocus t target h)
    ]
  ]
  Step-HasFocus {t} {u} (resizes direction delta _ moved e) v h =
      elim (Option-cases t.focused_pane) [
        | inl nowhere ↦ absurd (cc (nowhere, h.1))
        | inr (focused, there) ↦
            let (tree', moved', e', _) = resize-Keeps f laws t.tree focused direction delta in
            let same : record t { tree = tree' } ≡ u =
              unfold resize_split in ground (arith, e', there) in
            subst HasFocus same h
      ]
  Step-HasFocus {t} titles v h = unfold update_title_from_focused_pane in h

  Reach-HasFocus :
      {t u : TabModel f.Carrier S} → Reach f shutdown t u → IsValid t → HasFocus t → HasFocus u
  Reach-HasFocus here v h = h
  Reach-HasFocus (next r s) v h = Step-HasFocus s (Reach-IsValid r v) (Reach-HasFocus r v h)

  -- Every tab that the operations reach from a new one is valid and has the focus: the leaves of its
  -- tree are distinct, they are the keys of its pane map, and the focus is on one of them.
  pub Reach-new-IsValid :
      (id : ℕ) (pane : PaneModel S) {u : TabModel f.Carrier S}
      → Reach f shutdown (new id pane) u
      → IsValid u × ((p : ℕ) × (u.focused_pane ≡ some p) × (contains (panes u.tree) p ≡ true))
  Reach-new-IsValid id pane r =
      let v = Reach-IsValid r (new-IsValid id pane) in
      let (p, now) = Reach-HasFocus r (new-IsValid id pane) (unfold new in (pane.id, refl)) in
      (v, (p, now, v.focused p now))
