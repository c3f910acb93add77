-- ===== src/Tab.antt =====
-- A tab: a split tree and the panes that it owns, crates/mr-crabs-app/src/model/tab.rs. The map of
-- the panes is in the order of their identities. `S` is what a pane holds besides its identity, its
-- title and its focus sequence, and `shutdown` what `session.shutdown` makes of it.
pub mod Invariant
pub mod Insert
pub mod Close
pub mod Focus
pub mod Reach
pub mod Tests
use Prim.Native.String.{String}
use mr_crabs.Common.{
  ℕ, ◌≡◌, Bool, true, false, ◌&&◌, not, Option, none, some, List, [], ◌∷◌, ◌>>=◌, if◌then◌else◌,
  ◌==◌, leb, contains, lookup, insert, remove_key, keys, update, map_values, add_u64,
}
use mr_crabs.Split.Axis.{SplitAxis, SplitDirection, GridSize}
use mr_crabs.Split.Float.{Float32}
use mr_crabs.Split.Tree.{SplitTree, leaf, len, holds, panes, split_pane, remove}
use mr_crabs.Split.Resize.{resize}
use mr_crabs.Split.Focus.{next, neighbor}

pub data SplitError : Type 0 where
  no_focused_pane pane_not_found duplicate_pane : SplitError

pub data ClosePaneOutcome : Type 0 where
  closed : ℕ → ClosePaneOutcome
  tab_empty : ClosePaneOutcome

-- The reasons of `TabError::InvalidState`.
pub data TabError : Type 0 where
  leaves_mismatch focused_not_in_tree : TabError

pub data Result {ℓ κ} (E : Type ℓ) (A : Type κ) : Type (ℓ ⊔ κ) where
  ok : A → Result E A
  err : E → Result E A

pub record PaneModel (S : Type 0) : Type 0 where
  pub id : ℕ
  pub title : String
  pub focus_sequence : ℕ
  pub session : S

pub record TabModel (F S : Type 0) : Type 0 where
  pub id : ℕ
  pub title : String
  pub panes : List (ℕ × PaneModel S)
  pub tree : SplitTree F
  pub focused_pane : Option ℕ

abbrev pub is_focused : Option ℕ → ℕ → Bool
is_focused none p = false
is_focused (some q) p = q == p

abbrev pub first_pane : List ℕ → Option ℕ
first_pane [] = none
first_pane (p ∷ _) = some p

module _ {S : Type 0} where
  abbrev pub gain_focus : PaneModel S → PaneModel S
  gain_focus p = record p { focus_sequence = add_u64 p.focus_sequence 1 }

  abbrev pub end_session : (S → S) → PaneModel S → PaneModel S
  end_session shutdown p = record p { session = shutdown p.session }

-- `leaves != keys`, both as sets.
abbrev pub subset : List ℕ → List ℕ → Bool
subset [] ys = true
subset (x ∷ xs) ys = contains ys x && subset xs ys

module _ {F S : Type 0} where
  -- `new` with the pane that `PaneModel::detached` makes.
  unfoldable pub new : ℕ → PaneModel S → TabModel F S
  new id pane = record {
    id = id;
    title = "shell";
    panes = (pane.id, pane) ∷ [];
    tree = leaf pane.id;
    focused_pane = some pane.id;
  }

  unfoldable pub from_parts :
      ℕ → String → List (ℕ × PaneModel S) → SplitTree F → Option ℕ → Result TabError (TabModel F S)
  from_parts id title ps tree focused =
      let focus : Option ℕ = elim focused [ some p ↦ some p | none ↦ first_pane (panes tree) ] in
      let missing : Bool = elim focused [ some p ↦ not (holds tree p) | none ↦ false ] in
      if not (subset (panes tree) (keys ps) && subset (keys ps) (panes tree))
      then err leaves_mismatch
      else if missing
      then err focused_not_in_tree
      else ok (record { id = id; title = title; panes = ps; tree = tree; focused_pane = focus })

  unfoldable pub focus_pane : TabModel F S → ℕ → TabModel F S × Bool
  focus_pane t p =
      if holds t.tree p
      then (record t { panes = update p gain_focus t.panes; focused_pane = some p }, true)
      else (t, false)

  module _ (half : F) where
    unfoldable pub split_focused :
        TabModel F S → ℕ → SplitAxis → PaneModel S → TabModel F S × Result SplitError ℕ
    unfolding focus_pane
    split_focused t focused ax pane =
        let (tree', found) = split_pane half t.tree focused ax pane.id in
        if found
        then (
          (focus_pane (record t { tree = tree'; panes = insert pane.id pane t.panes }) pane.id).0,
          ok pane.id,
        )
        else (record t { tree = tree' }, err pane_not_found)

    unfoldable pub insert_split_pane :
        TabModel F S → SplitAxis → PaneModel S → TabModel F S × Result SplitError ℕ
    unfolding split_focused
    insert_split_pane t ax pane =
        if contains (keys t.panes) pane.id then (t, err duplicate_pane) else elim t.focused_pane [
          | none ↦ (t, err no_focused_pane)
          | some focused ↦ split_focused t focused ax pane
        ]

  module _ (shutdown : S → S) where
    -- The branch of `close_pane` where the tree has given its new root.
    unfoldable pub drop_pane : TabModel F S → ℕ → SplitTree F → TabModel F S
    drop_pane t pane root = record t {
      panes = remove_key pane (update pane (end_session shutdown) t.panes);
      tree = root;
      focused_pane =
          if is_focused t.focused_pane pane then first_pane (panes root) else t.focused_pane;
    }

    -- `none` is a panic of `remove`.
    unfoldable pub close_pane : TabModel F S → ℕ → Option (TabModel F S × ClosePaneOutcome)
    unfolding drop_pane
    close_pane t pane =
        if leb (len t.tree) 1
        then some (record t { panes = update pane (end_session shutdown) t.panes }, tab_empty)
        else elim (remove t.tree pane) [
          | none ↦ none
          | some none ↦ some (t, tab_empty)
          | some (some root) ↦ some (drop_pane t pane root, closed pane)
        ]

    unfoldable pub close_all : TabModel F S → TabModel F S
    close_all t = record t { panes = map_values (end_session shutdown) t.panes }

  -- Each of these returns the pane that has the focus now, if it moves.
  unfoldable pub focus_target : TabModel F S → Option ℕ → TabModel F S × Option ℕ
  unfolding focus_pane
  focus_target t none = (t, none)
  focus_target t (some p) = ((focus_pane t p).0, some p)

  unfoldable pub cycle_pane : TabModel F S → Bool → TabModel F S × Option ℕ
  unfolding focus_target
  cycle_pane t forward = focus_target t (do from ← t.focused_pane; next t.tree from forward)

  unfoldable pub update_title_from_focused_pane : TabModel F S → TabModel F S
  update_title_from_focused_pane t = record t {
    title = elim (do p ← t.focused_pane; lookup p t.panes) [
      | none ↦ t.title
      | some pane ↦ pane.title
    ];
  }

module _ (f : Float32) {S : Type 0} where
  -- `none` is the panic of `rects`.
  unfoldable pub goto_split :
      TabModel f.Carrier S → SplitDirection → GridSize → Option (TabModel f.Carrier S × Option ℕ)
  unfolding focus_target
  goto_split t direction size = elim t.focused_pane [
    | none ↦ some (t, none)
    | some from ↦ do target ← neighbor f t.tree from direction size; some (focus_target t target)
  ]

  unfoldable pub resize_split :
      TabModel f.Carrier S → SplitDirection → f.Carrier → Option (TabModel f.Carrier S × Bool)
  resize_split t direction delta = elim t.focused_pane [
    | none ↦ some (t, false)
    | some focused ↦ do
      (tree', moved) ← resize f t.tree focused direction delta
      some (record t { tree = tree' }, moved)
  ]
