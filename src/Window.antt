-- ===== src/Window.antt =====
-- A window: tabs in an order with one of them active, crates/mr-crabs-app/src/model/window.rs. `S`
-- and `shutdown` are those of the tabs, `G` is the geometry of the surface. The animation settings
-- and the logo of the startup are left out: no operation below reads them.
pub mod Startup
pub mod Order
pub mod Invariant
pub mod Keeps
pub mod Reach
pub mod Tabs
pub mod Tests
use Prim.Native.String.{String, len}
use mr_crabs.Common.{
  ℕ, Bool, true, false, not, Option, none, some, List, [], ◌∷◌, ◌++◌, ◌>>=◌, if◌then◌else◌, ◌==◌,
  leb, length, contains, lookup, insert, remove_key, keys, update,
}
use mr_crabs.Split.Axis.{SplitDirection, GridSize}
use mr_crabs.Split.Float.{Float32}
use mr_crabs.Split.Tree.{holds}
use mr_crabs.Split.Focus.{next_in}
use mr_crabs.Tab
use mr_crabs.Tab.{TabModel, PaneModel, Result, ok, err, close_all}
use mr_crabs.Window.Order.{last_of, without, sort, same_list, heir}
use mr_crabs.Window.Startup.{StartupPresentation}

-- The reasons of `WindowError::InvalidState`.
pub data WindowError : Type 0 where
  order_mismatch active_not_in_window : WindowError

pub data TabCloseOutcome : Type 0 where
  closed : ℕ → TabCloseOutcome
  last_tab_closed : TabCloseOutcome

pub record WindowModel (F S G : Type 0) : Type 0 where
  pub id : ℕ
  pub title : String
  pub tabs : List (ℕ × TabModel F S)
  pub tab_order : List ℕ
  pub active_tab : Option ℕ
  pub geometry : Option G
  pub is_quick_terminal : Bool
  pub visible : Bool
  pub restored : Bool
  pub startup_presentation : StartupPresentation

abbrev pub is_empty {ℓ} : {A : Type ℓ} → List A → Bool
is_empty [] = true
is_empty (_ ∷ _) = false

module _ {F S : Type 0} where
  -- The loop of `focus_pane`: the tabs behind it, the tab that is active then, and the result.
  abbrev pub behind :
      ℕ
      → TabModel F S
      → Option (List (ℕ × TabModel F S) × ℕ × Bool)
      → Option (List (ℕ × TabModel F S) × ℕ × Bool)
  behind k t none = none
  behind k t (some (m, id, moved)) = some ((k, t) ∷ m, id, moved)

  abbrev pub focus_in : List (ℕ × TabModel F S) → ℕ → Option (List (ℕ × TabModel F S) × ℕ × Bool)
  focus_in [] p = none
  focus_in ((k, t) ∷ m) p =
      let (t', moved) = Tab.focus_pane t p in
      let rest = focus_in m p in
      if holds t.tree p then some ((k, t') ∷ m, t.id, moved) else behind k t rest

module _ {F S G : Type 0} where
  -- `new` with the pane that `TabModel::new` makes.
  unfoldable pub new : ℕ → ℕ → PaneModel S → WindowModel F S G
  new id tab_id pane = record {
    id = id;
    title = "Mr Crabs";
    tabs = (tab_id, Tab.new tab_id pane) ∷ [];
    tab_order = tab_id ∷ [];
    active_tab = some tab_id;
    geometry = none;
    is_quick_terminal = false;
    visible = true;
    restored = false;
    startup_presentation = StartupPresentation.none;
  }

  unfoldable pub from_parts :
      ℕ
      → String
      → List (ℕ × TabModel F S)
      → List ℕ
      → Option ℕ
      → Bool
      → Result WindowError (WindowModel F S G)
  from_parts id title tabs tab_order active quick =
      let missing : Bool = elim active [ some a ↦ not (contains (keys tabs) a) | none ↦ false ] in
      let active_tab : Option ℕ = elim active [ some a ↦ some a | none ↦ last_of tab_order ] in
      if not (same_list (sort tab_order) (sort (keys tabs)))
      then err order_mismatch
      else if missing
      then err active_not_in_window
      else ok (record {
        id = id;
        title = title;
        tabs = tabs;
        tab_order = tab_order;
        active_tab = active_tab;
        geometry = none;
        is_quick_terminal = quick;
        visible = true;
        restored = true;
        startup_presentation = StartupPresentation.none;
      })

  unfoldable pub active : WindowModel F S G → Option (TabModel F S)
  active w = do a ← w.active_tab; lookup a w.tabs

  -- What a change through `active_tab_mut` leaves.
  abbrev pub put_at : WindowModel F S G → TabModel F S → Option ℕ → WindowModel F S G
  put_at w t none = w
  put_at w t (some a) = record w { tabs = update a (λ _. t) w.tabs }

  unfoldable pub put_active : WindowModel F S G → TabModel F S → WindowModel F S G
  put_active w t = put_at w t w.active_tab

  unfoldable pub add_tab : WindowModel F S G → TabModel F S → WindowModel F S G
  add_tab w t =
      let tab_order = w.tab_order ++ (t.id ∷ []) in
      record w {
        tab_order = tab_order;
        tabs = insert t.id t w.tabs;
        active_tab = last_of tab_order;
      }

  unfoldable pub set_active_tab : WindowModel F S G → ℕ → WindowModel F S G × Bool
  set_active_tab w a =
      if contains (keys w.tabs) a then (record w { active_tab = some a }, true) else (w, false)

  -- The index of the next tab is never out of range.
  abbrev pub cycle_to : WindowModel F S G → Option ℕ → WindowModel F S G × Option ℕ
  cycle_to w none = (w, none)
  cycle_to w (some b) = (record w { active_tab = some b }, some b)

  abbrev pub cycle_from : WindowModel F S G → Bool → Option ℕ → WindowModel F S G × Option ℕ
  cycle_from w forward none = (w, none)
  cycle_from w forward (some a) =
      if leb (length w.tab_order) 1 then (w, some a) else cycle_to w (next_in w.tab_order a forward)

  unfoldable pub cycle_tab : WindowModel F S G → Bool → WindowModel F S G × Option ℕ
  cycle_tab w forward = cycle_from w forward w.active_tab

  -- The end of `close_tab` for a tab that was there. The last result is that tab, its sessions shut
  -- down, which is dropped.
  abbrev pub drop_tab :
      WindowModel F S G
      → ℕ
      → TabModel F S
      → WindowModel F S G × TabCloseOutcome × Option (TabModel F S)
  drop_tab w a t =
      let rest = record w { tabs = remove_key a w.tabs; tab_order = without a w.tab_order } in
      if is_empty rest.tabs
      then (record rest { active_tab = none }, last_tab_closed, some t)
      else (record rest { active_tab = heir w.active_tab a w.tab_order }, closed a, some t)

  abbrev pub close_at :
      (S → S)
      → WindowModel F S G
      → ℕ
      → Option (TabModel F S)
      → WindowModel F S G × TabCloseOutcome × Option (TabModel F S)
  close_at shutdown w a none = (w, last_tab_closed, none)
  close_at shutdown w a (some t) = drop_tab w a (close_all shutdown t)

  unfoldable pub close_tab :
      (S → S) → WindowModel F S G → ℕ → WindowModel F S G × TabCloseOutcome × Option (TabModel F S)
  close_tab shutdown w a = close_at shutdown w a (lookup a w.tabs)

  unfoldable pub focused_pane_id : WindowModel F S G → Option ℕ
  unfolding active
  focused_pane_id w = do t ← active w; t.focused_pane

  abbrev pub focus_at :
      WindowModel F S G → Option (List (ℕ × TabModel F S) × ℕ × Bool) → WindowModel F S G × Bool
  focus_at w none = (w, false)
  focus_at w (some (tabs, id, moved)) = (record w { tabs = tabs; active_tab = some id }, moved)

  unfoldable pub focus_pane : WindowModel F S G → ℕ → WindowModel F S G × Bool
  focus_pane w p = focus_at w (focus_in w.tabs p)

  abbrev pub cycle_in :
      WindowModel F S G → Bool → Option (TabModel F S) → WindowModel F S G × Option ℕ
  cycle_in w forward none = (w, none)
  cycle_in w forward (some t) = let (t', to) = Tab.cycle_pane t forward in (put_active w t', to)

  unfoldable pub cycle_pane : WindowModel F S G → Bool → WindowModel F S G × Option ℕ
  unfolding active put_active
  cycle_pane w forward = cycle_in w forward (active w)

  unfoldable pub window_title : WindowModel F S G → String
  unfolding active
  window_title w = elim (active w) [
    | none ↦ w.title
    | some t ↦ if len t.title == 0 then w.title else t.title
  ]

module _ (f : Float32) {S G : Type 0} where
  abbrev pub goto_in :
      WindowModel f.Carrier S G
      → SplitDirection
      → GridSize
      → Option (TabModel f.Carrier S)
      → Option (WindowModel f.Carrier S G × Option ℕ)
  goto_in w direction size none = some (w, none)
  goto_in w direction size (some t) = do
    (t', to) ← Tab.goto_split f t direction size
    some (put_active w t', to)

module _ (f : Float32) {S G : Type 0} (grid_of : G → GridSize) (last_size : S → GridSize) where
  -- The measured grid, or that of the focused pane before the first measurement.
  unfoldable pub grid_or_last : WindowModel f.Carrier S G → Option GridSize
  unfolding active
  grid_or_last w = elim w.geometry [
    | some g ↦ some (grid_of g)
    | none ↦ do
      t ← active w
      p ← t.focused_pane
      pane ← lookup p t.panes
      some (last_size pane.session)
  ]

  -- `none` is the panic of `rects`.
  unfoldable pub goto_split :
      WindowModel f.Carrier S G → SplitDirection → Option (WindowModel f.Carrier S G × Option ℕ)
  unfolding active put_active grid_or_last
  goto_split w direction = elim (grid_or_last w) [
    | none ↦ some (w, none)
    | some size ↦ goto_in f w direction size (active w)
  ]
