-- ===== src/Window/Keeps.antt =====
-- The operations of a window that keep its invariant: crates/mr-crabs-app/src/model/window.rs.
use mr_crabs.Common.{
  ℕ, ◌≡◌, refl, sym, ap, ◌∙◌, inl, inr, Bool, true, false, Option, none, some, List, [], ◌∷◌, ◌>>=◌,
  leb, length, Bool-cases, contains, contains-append, keys, lookup, update, arith, insert-IsOrdered,
  contains-keys-insert, keys-update,
}
use mr_crabs.Split.Tree.{holds}
use mr_crabs.Split.Focus.Cycle.{next_in-next_in}
use mr_crabs.Tab
use mr_crabs.Tab.{TabModel, PaneModel, Result, ok, err, focus_target}
use mr_crabs.Tab.Invariant
use mr_crabs.Tab.Invariant.{
  new-IsValid, focus_pane-IsValid, focus_target-IsValid, cycle_pane-IsValid,
}
use mr_crabs.Window.{
  WindowModel, new, active, put_at, put_active, cycle_from, cycle_in, behind, add_tab,
  set_active_tab, cycle_tab, focus_in, focus_at, focus_pane, cycle_pane,
}
use mr_crabs.Window.Invariant.{
  IsEntry, AreEntries, insert-AreEntries, lookup-IsEntry, update-AreEntries, IsValid,
}
use mr_crabs.Window.Order.{last_of-append, Distinct-snoc}

module _ {F S : Type 0} where
  id-focus_pane : (t : TabModel F S) (p : ℕ) → (Tab.focus_pane t p).0.id ≡ t.id
  unfolding Tab.focus_pane
  id-focus_pane t p = ground arith

  pub id-focus_target : (t : TabModel F S) (o : Option ℕ) → (focus_target t o).0.id ≡ t.id
  unfolding focus_target
  id-focus_target t none = refl
  id-focus_target t (some p) = id-focus_pane t p

  id-cycle_pane : (t : TabModel F S) (forward : Bool) → (Tab.cycle_pane t forward).0.id ≡ t.id
  unfolding Tab.cycle_pane
  id-cycle_pane t forward = id-focus_target t _

  abbrev Focuses : List (ℕ × TabModel F S) → Option (List (ℕ × TabModel F S) × ℕ × Bool) → Type 0
  Focuses m none = Unit
  Focuses m (some (m', a, _)) = (keys m' ≡ keys m) × AreEntries m' × (contains (keys m) a ≡ true)

  behind-Focuses :
      (k : ℕ) (t : TabModel F S) (m : List (ℕ × TabModel F S))
      (o : Option (List (ℕ × TabModel F S) × ℕ × Bool))
      → IsEntry k t
      → Focuses m o
      → Focuses ((k, t) ∷ m) (behind k t o)
  behind-Focuses k t m none e h = tt
  behind-Focuses k t m (some (m', a, moved)) e (same, all, there) =
      (ap (k ∷◌) same, (e, all), ground (arith, there))

  focus_in-Focuses : (m : List (ℕ × TabModel F S)) (p : ℕ) → AreEntries m → Focuses m (focus_in m p)
  focus_in-Focuses [] p all = tt
  focus_in-Focuses ((k, t) ∷ m) p all = elim (Bool-cases (holds t.tree p)) [
    | inl held ↦ rw held (
      refl,
      ((id-focus_pane t p ∙ all.0.0, focus_pane-IsValid t p all.0.1), all.1),
      ground (arith, all.0.0),
    )
    | inr other ↦ rw other (behind-Focuses k t m (focus_in m p) all.0 (focus_in-Focuses m p all.1))
  ]

module _ {F S G : Type 0} where
  pub new-window-IsValid : (id a : ℕ) (pane : PaneModel S) → IsValid (new {F = F} {G = G} id a pane)
  unfolding new Tab.new
  new-window-IsValid id a pane = record {
    ordered = (tt, tt);
    entries = ((refl, unfold Tab.new in new-IsValid a pane), tt);
    distinct = (refl, tt);
    same = λ b. refl;
    active = λ b e. ground arith;
    awake = λ e. cc;
  }

  pub add_tab-IsValid :
      (w : WindowModel F S G) (t : TabModel F S)
      → contains (keys w.tabs) t.id ≡ false
      → Tab.Invariant.IsValid t
      → IsValid w
      → IsValid (add_tab w t)
  unfolding add_tab
  add_tab-IsValid w t fresh v' v = record {
    ordered = insert-IsOrdered t.id t w.tabs v.ordered;
    entries = insert-AreEntries t.id t w.tabs (refl, v') v.entries;
    distinct = Distinct-snoc w.tab_order t.id v.distinct (v.same t.id ∙ fresh);
    same = λ a.
        rw
          (
            contains-append a w.tab_order (t.id ∷ []),
            contains-keys-insert a t.id t w.tabs,
            v.same a,
          )
          (ground arith);
    active = λ a e.
        ground (arith, last_of-append w.tab_order t.id, contains-keys-insert a t.id t w.tabs);
    awake = λ e. let last = last_of-append w.tab_order t.id in absurd cc;
  }

  -- Another tab of the window is active.
  moved-IsValid :
      (w : WindowModel F S G) (a : ℕ)
      → contains (keys w.tabs) a ≡ true
      → IsValid w
      → IsValid (record w { active_tab = some a })
  moved-IsValid w a there v = record {
    ordered = v.ordered;
    entries = v.entries;
    distinct = v.distinct;
    same = v.same;
    active = λ b e. ground (arith, there, e);
    awake = λ e. cc;
  }

  pub set_active_tab-IsValid :
      (w : WindowModel F S G) (a : ℕ) → IsValid w → IsValid (set_active_tab w a).0
  unfolding set_active_tab
  set_active_tab-IsValid w a v = elim (Bool-cases (contains (keys w.tabs) a)) [
    | inl there ↦ rw there (moved-IsValid w a there v)
    | inr absent ↦ rw absent v
  ]

  -- The tabs have changed, under the same keys.
  replaced-IsValid :
      (w : WindowModel F S G) (m : List (ℕ × TabModel F S))
      → keys m ≡ keys w.tabs
      → AreEntries m
      → IsValid w
      → IsValid (record w { tabs = m })
  replaced-IsValid w m same entries v = record {
    ordered = rw same v.ordered;
    entries = entries;
    distinct = v.distinct;
    same = λ a. rw same (v.same a);
    active = λ a e. rw same (v.active a e);
    awake = v.awake;
  }

  pub put-IsValid :
      (w : WindowModel F S G) (a : ℕ) (t : TabModel F S)
      → IsEntry a t
      → IsValid w
      → IsValid (record w { tabs = update a (λ _. t) w.tabs })
  put-IsValid w a t e v =
      replaced-IsValid w (update a (λ _. t) w.tabs) (keys-update a (λ _. t) w.tabs)
        (update-AreEntries a t w.tabs e v.entries) v

  pub put_at-IsValid :
      (w : WindowModel F S G) (t t' : TabModel F S) (o : Option ℕ)
      → (do a ← o; lookup a w.tabs) ≡ some t
      → t'.id ≡ t.id
      → (Tab.Invariant.IsValid t → Tab.Invariant.IsValid t')
      → IsValid w
      → IsValid (put_at w t' o)
  put_at-IsValid w t t' none e same keep v = v
  put_at-IsValid w t t' (some a) e same keep v =
      let (key, valid) = lookup-IsEntry a w.tabs t v.entries e in
      put-IsValid w a t' (same ∙ key, keep valid) v

  cycle_in-IsValid :
      (w : WindowModel F S G) (forward : Bool) (o : Option (TabModel F S))
      → active w ≡ o
      → IsValid w
      → IsValid (cycle_in w forward o).0
  unfolding active put_active
  cycle_in-IsValid w forward none e v = v
  cycle_in-IsValid w forward (some t) e v =
      put_at-IsValid w t (Tab.cycle_pane t forward).0 w.active_tab e (id-cycle_pane t forward)
        (cycle_pane-IsValid t forward) v

  cycle_from-IsValid :
      (w : WindowModel F S G) (forward : Bool) (o : Option ℕ)
      → IsValid w
      → IsValid (cycle_from w forward o).0
  cycle_from-IsValid w forward none v = v
  cycle_from-IsValid w forward (some a) v = elim (Bool-cases (leb (length w.tab_order) 1)) [
    | inl alone ↦ rw alone v
    | inr more ↦ elim (next_in-next_in w.tab_order a forward v.distinct) [
      | inl (_, nowhere) ↦ rw (more, nowhere) v
      | inr (b, _, there, to, _) ↦ rw (more, to) (moved-IsValid w b (sym (v.same b) ∙ there) v)
    ]
  ]

  focus_at-IsValid :
      (w : WindowModel F S G) (o : Option (List (ℕ × TabModel F S) × ℕ × Bool))
      → Focuses w.tabs o
      → IsValid w
      → IsValid (focus_at w o).0
  focus_at-IsValid w none h v = v
  focus_at-IsValid w (some (m, a, moved)) (k, entries, there) v =
      moved-IsValid (record w { tabs = m }) a (rw k there) (replaced-IsValid w m k entries v)

  pub focus_pane-window-IsValid :
      (w : WindowModel F S G) (p : ℕ) → IsValid w → IsValid (focus_pane w p).0
  unfolding focus_pane
  focus_pane-window-IsValid w p v =
      focus_at-IsValid w (focus_in w.tabs p) (focus_in-Focuses w.tabs p v.entries) v

  pub cycle_tab-IsValid :
      (w : WindowModel F S G) (forward : Bool) → IsValid w → IsValid (cycle_tab w forward).0
  unfolding cycle_tab
  cycle_tab-IsValid w forward v = cycle_from-IsValid w forward w.active_tab v

  pub cycle_pane-window-IsValid :
      (w : WindowModel F S G) (forward : Bool) → IsValid w → IsValid (cycle_pane w forward).0
  unfolding cycle_pane
  cycle_pane-window-IsValid w forward v = cycle_in-IsValid w forward (active w) refl v
