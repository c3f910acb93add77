-- ===== src/Window/Reach.antt =====
-- The windows that the operations of crates/mr-crabs-app/src/model/window.rs can reach.
use Prim.Native.String.{String}
use mr_crabs.Common.{
  ℕ, ◌≡◌, refl, sym, ap, subst, ◌∙◌, inl, inr, Bool, true, false, Option, none, some, List,
  Bool-cases, Option-cases, contains, Distinct, keys, lookup, IsOrdered, arith, Distinct-of_Rising,
  update,
}
use mr_crabs.Split.Axis.{SplitDirection, GridSize}
use mr_crabs.Split.Float.{Float32, IsIeee}
use mr_crabs.Split.Focus.{neighbor}
use mr_crabs.Tab
use mr_crabs.Tab.{TabModel, PaneModel, Result, ok, err, close_all, focus_target}
use mr_crabs.Tab.Invariant
use mr_crabs.Tab.Reach.{goto-IsValid}
use mr_crabs.Tab.Invariant.{focus_target-IsValid}
use mr_crabs.Window.{
  WindowModel, WindowError, new, from_parts, active, put_active, goto_in, grid_or_last, close_at,
  add_tab, set_active_tab, cycle_tab, close_tab, focus_pane, cycle_pane, goto_split,
}
use mr_crabs.Window.Invariant.{AreEntries, IsEntry, IsValid}
use mr_crabs.Window.Keeps.{
  new-window-IsValid, add_tab-IsValid, set_active_tab-IsValid, put-IsValid, put_at-IsValid,
  cycle_tab-IsValid, focus_pane-window-IsValid, cycle_pane-window-IsValid, id-focus_target,
}
use mr_crabs.Window.Tabs.{drop_tab-IsValid}
use mr_crabs.Window.Order.{
  sort, same_list, contains-last_of, last_of-none, contains-sort, Distinct-of_sort, sort-Distinct,
  same_list-eq,
}

-- A window in place of a result that is an error.
abbrev Good : {F S G : Type 0} → Result WindowError (WindowModel F S G) → Type 0
Good (ok w) = IsValid w
Good (err _) = Unit

listed :
    (order ks : List ℕ)
    → same_list (sort order) (sort ks) ≡ true
    → Distinct ks
    → Distinct order × ((a : ℕ) → contains order a ≡ contains ks a)
listed order ks h d =
    let e = same_list-eq (sort order) (sort ks) h in
    (
      Distinct-of_sort order (subst Distinct (sym e) (sort-Distinct ks d)),
      λ a. sym (contains-sort order a) ∙ (ap (λ xs. contains xs a) e ∙ contains-sort ks a),
    )

module _ {F S : Type 0} (G : Type 0) where
  from_parts-IsValid :
      (id : ℕ) (title : String) (tabs : List (ℕ × TabModel F S)) (order : List ℕ)
      (chosen : Option ℕ) (quick : Bool)
      → IsOrdered tabs
      → AreEntries tabs
      → Good (from_parts {G = G} id title tabs order chosen quick)
  unfolding from_parts
  from_parts-IsValid id title tabs order none quick ordered entries =
      elim (Bool-cases (same_list (sort order) (sort (keys tabs)))) [
        | inr differ ↦ rw differ tt
        | inl agree ↦
            let (distinct, same) =
              listed order (keys tabs) agree (Distinct-of_Rising (keys tabs) ordered) in
            rw agree (record {
              ordered = ordered;
              entries = entries;
              distinct = distinct;
              same = same;
              active = λ a e. sym (same a) ∙ contains-last_of order a e;
              awake = last_of-none order;
            })
      ]
  from_parts-IsValid id title tabs order (some a) quick ordered entries =
      elim (Bool-cases (same_list (sort order) (sort (keys tabs)))) [
        | inr differ ↦ rw differ tt
        | inl agree ↦ elim (Bool-cases (contains (keys tabs) a)) [
          | inr absent ↦ rw (agree, absent) tt
          | inl there ↦
              let (distinct, same) =
                listed order (keys tabs) agree (Distinct-of_Rising (keys tabs) ordered) in
              rw (agree, there)
                (record {
                  ordered = ordered;
                  entries = entries;
                  distinct = distinct;
                  same = same;
                  active = λ b e. ground (arith, there, e);
                  awake = λ e. cc;
                })
        ]
      ]

module _ {F S G : Type 0} where
  close_at-IsValid :
      (shutdown : S → S) (w : WindowModel F S G) (a : ℕ) (o : Option (TabModel F S))
      → IsValid w
      → IsValid (close_at shutdown w a o).0
  close_at-IsValid shutdown w a none v = v
  close_at-IsValid shutdown w a (some t) v = drop_tab-IsValid w a (close_all shutdown t) v

  close_tab-IsValid :
      (shutdown : S → S) (w : WindowModel F S G) (a : ℕ)
      → IsValid w
      → IsValid (close_tab shutdown w a).0
  unfolding close_tab
  close_tab-IsValid shutdown w a v = close_at-IsValid shutdown w a (lookup a w.tabs) v

module _ (f : Float32) {S : Type 0} where
  id-goto_split :
      (t u : TabModel f.Carrier S) (direction : SplitDirection) (size : GridSize) (to : Option ℕ)
      → Tab.goto_split f t direction size ≡ some (u, to)
      → u.id ≡ t.id
  id-goto_split t u direction size to e = elim (Option-cases t.focused_pane) [
    | inl nowhere ↦ unfold Tab.goto_split in ground arith
    | inr (from, there) ↦ elim (Option-cases (neighbor f t.tree from direction size)) [
      | inl panic ↦ absurd (unfold Tab.goto_split in ground (arith, panic, there))
      | inr (target, found) ↦
          let same : (focus_target t target).0 ≡ u =
            unfold Tab.goto_split in ground (arith, found, there) in
          subst (λ v. v.id ≡ t.id) same (id-focus_target t target)
    ]
  ]

module _ (f : Float32) (laws : IsIeee f) {S G : Type 0} (shutdown : S → S) where
  goto_in-IsValid :
      (w u : WindowModel f.Carrier S G) (direction : SplitDirection) (size : GridSize)
      (o : Option (TabModel f.Carrier S)) (to : Option ℕ)
      → active w ≡ o
      → goto_in f w direction size o ≡ some (u, to)
      → IsValid w
      → IsValid u
  unfolding active put_active
  goto_in-IsValid w u direction size none to here e v =
      let same : w ≡ u = ground (arith, e) in subst IsValid same v
  goto_in-IsValid w u direction size (some t) to here e v =
      elim (Option-cases (Tab.goto_split f t direction size)) [
        | inl panic ↦ absurd (ground (arith, panic, e))
        | inr ((t', to'), moved) ↦
            let same : put_active w t' ≡ u = ground (arith, moved, e) in
            subst IsValid same (
              put_at-IsValid w t t' w.active_tab here
                (id-goto_split f t t' direction size to' moved)
                (goto-IsValid f laws shutdown t t' direction size to' moved) v)
      ]

module _ (f : Float32) {S G : Type 0} (shutdown : S → S) (grid_of : G → GridSize)
    (last_size : S → GridSize) where
  -- One call of an operation. A tab that is added is valid and has a new identity, and one that
  -- `tab_mut` changes stays valid under its identity.
  pub data Step (w : WindowModel f.Carrier S G) : WindowModel f.Carrier S G → Type 0 where
    adds :
        (t : TabModel f.Carrier S)
        → contains (keys w.tabs) t.id ≡ false
        → Tab.Invariant.IsValid t
        → Step w (add_tab w t)
    changes :
        (a : ℕ) (t : TabModel f.Carrier S)
        → IsEntry a t
        → Step w (record w { tabs = update a (λ _. t) w.tabs })
    activates : (a : ℕ) → Step w (set_active_tab w a).0
    turns : (forward : Bool) → Step w (cycle_tab w forward).0
    closes : (a : ℕ) → Step w (close_tab shutdown w a).0
    focuses : (p : ℕ) → Step w (focus_pane w p).0
    cycles : (forward : Bool) → Step w (cycle_pane w forward).0
    goes :
        (direction : SplitDirection) (u : WindowModel f.Carrier S G) (to : Option ℕ)
        → goto_split f grid_of last_size w direction ≡ some (u, to)
        → Step w u

  pub data Reach (w : WindowModel f.Carrier S G) : WindowModel f.Carrier S G → Type 0 where
    here : Reach w w
    next : {u x : WindowModel f.Carrier S G} → Reach w u → Step u x → Reach w x

  -- A window that `new` makes, or that `from_parts` makes of valid tabs.
  pub data IsStart : WindowModel f.Carrier S G → Type 0 where
    made : (id a : ℕ) (pane : PaneModel S) → IsStart (new id a pane)
    restored :
        (id : ℕ) (title : String) (tabs : List (ℕ × TabModel f.Carrier S)) (order : List ℕ)
        (chosen : Option ℕ) (quick : Bool) (w : WindowModel f.Carrier S G)
        → IsOrdered tabs
        → AreEntries tabs
        → from_parts id title tabs order chosen quick ≡ ok w
        → IsStart w

  IsStart-IsValid : (w : WindowModel f.Carrier S G) → IsStart w → IsValid w
  IsStart-IsValid _ (made id a pane) = new-window-IsValid id a pane
  IsStart-IsValid w (restored id title tabs order chosen quick _ ordered entries e) =
      subst Good e (from_parts-IsValid G id title tabs order chosen quick ordered entries)

module _ (f : Float32) (laws : IsIeee f) {S G : Type 0} (shutdown : S → S) (grid_of : G → GridSize)
    (last_size : S → GridSize) where
  goto-window-IsValid :
      (w u : WindowModel f.Carrier S G) (direction : SplitDirection) (to : Option ℕ)
      → goto_split f grid_of last_size w direction ≡ some (u, to)
      → IsValid w
      → IsValid u
  unfolding goto_split
  goto-window-IsValid w u direction to e v =
      elim (Option-cases (grid_or_last f grid_of last_size w)) [
        | inl nowhere ↦ let same : w ≡ u = ground (arith, nowhere, e) in subst IsValid same v
        | inr (size, there) ↦
            goto_in-IsValid f laws shutdown w u direction size (active w) to refl
              (ground (arith, there, e)) v
      ]

  Step-IsValid :
      {w u : WindowModel f.Carrier S G}
      → Step f shutdown grid_of last_size w u
      → IsValid w
      → IsValid u
  Step-IsValid {w} (adds t fresh valid) v = add_tab-IsValid w t fresh valid v
  Step-IsValid {w} (changes a t e) v = put-IsValid w a t e v
  Step-IsValid {w} (activates a) v = set_active_tab-IsValid w a v
  Step-IsValid {w} (turns forward) v = cycle_tab-IsValid w forward v
  Step-IsValid {w} (closes a) v = close_tab-IsValid shutdown w a v
  Step-IsValid {w} (focuses p) v = focus_pane-window-IsValid w p v
  Step-IsValid {w} (cycles forward) v = cycle_pane-window-IsValid w forward v
  Step-IsValid {w} {u} (goes direction _ to e) v = goto-window-IsValid w u direction to e v

  Reach-IsValid :
      {w u : WindowModel f.Carrier S G}
      → Reach f shutdown grid_of last_size w u
      → IsValid w
      → IsValid u
  Reach-IsValid here v = v
  Reach-IsValid (next r s) v = Step-IsValid s (Reach-IsValid r v)

  -- Every window that the operations reach from a new one, or from one that was restored from valid
  -- tabs, is valid: the order lists the tabs once each, every tab is valid under its own identity,
  -- and the active tab is one of them, there being one unless the window is empty. The tabs that are
  -- added are new and valid, and those that are changed in place stay valid.
  pub Reach-start-IsValid :
      {w u : WindowModel f.Carrier S G}
      → IsStart f shutdown grid_of last_size w
      → Reach f shutdown grid_of last_size w u
      → IsValid u
  Reach-start-IsValid {w} s r = Reach-IsValid r (IsStart-IsValid f shutdown grid_of last_size w s)
