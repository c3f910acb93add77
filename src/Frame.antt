-- ===== src/Frame.antt =====
-- Frames of terminal output: crates/mr-crabs-terminal/src/delta.rs. `Style` is the type of the
-- resolved styles, which a frame only carries.
pub mod Runs
pub mod Batch
pub mod Pool
pub mod Recycle
pub mod Tests
use Prim.Native.String.{String}
use mr_crabs.Common.{
  ℕ, Bool, true, false, Option, none, some, List, [], ◌∷◌, ◌++◌, if◌then◌else◌, ◌==◌,
}
use mr_crabs.Grid.{GridSize, Cell, DamageKind, clean}

pub record Run : Type 0 where
  pub start_col : ℕ
  pub len : ℕ
  pub style : ℕ

pub record RowDelta : Type 0 where
  pub row : ℕ
  pub generation : ℕ
  pub cells : List Cell
  pub runs : List Run
  pub combining : List (ℕ × List ℕ)

pub data CursorShape : Type 0 where
  block bar underline hollow_block : CursorShape

pub record CursorState : Type 0 where
  pub row : ℕ
  pub col : ℕ
  pub shape : CursorShape
  pub blinking : Bool
  pub visible : Bool
  pub wrap_pending : Bool

pub record TerminalViewport : Type 0 where
  pub scroll_offset : ℕ
  pub history_rows : ℕ
  pub alternate_screen : Bool

pub data SelectionKind : Type 0 where
  linear rectangular : SelectionKind

pub record SelectionState : Type 0 where
  pub start : Option (ℕ × ℕ)
  pub end : Option (ℕ × ℕ)
  pub active : Bool
  pub kind : SelectionKind

pub record FramePoint : Type 0 where
  pub row : ℕ
  pub col : ℕ

pub record FrameRange : Type 0 where
  pub start : FramePoint
  pub end : FramePoint

pub record FrameSearchMatch : Type 0 where
  pub range : FrameRange
  pub current : Bool

pub record FrameHyperlink : Type 0 where
  pub range : FrameRange
  pub id : Option String
  pub uri : String

pub record AnimationRegion : Type 0 where
  pub row : ℕ
  pub col : ℕ
  pub size : GridSize

-- The placeholder for images has no content, and is left out.
pub record FrameDelta (Style : Type 0) : Type 0 where
  pub sequence : ℕ
  pub style_epoch : ℕ
  pub size : GridSize
  pub damage : DamageKind
  pub rows : List RowDelta
  pub cursor : CursorState
  pub selection : SelectionState
  pub styles : List Style
  pub viewport : TerminalViewport
  pub search_matches : List FrameSearchMatch
  pub hyperlinks : List FrameHyperlink
  pub animation_region : Option AnimationRegion
  pub spare_rows : List RowDelta

abbrev pub default_cursor : CursorState
default_cursor = record {
  row = 0;
  col = 0;
  shape = block;
  blinking = false;
  visible = true;
  wrap_pending = false;
}

abbrev pub default_viewport : TerminalViewport
default_viewport = record { scroll_offset = 0; history_rows = 0; alternate_screen = false }

abbrev pub default_selection : SelectionState
default_selection = record { start = none; end = none; active = false; kind = linear }

abbrev pub empty_row : RowDelta
empty_row = record { row = 0; generation = 0; cells = []; runs = []; combining = [] }

abbrev pub clear_row : RowDelta → RowDelta
clear_row r = record r { cells = []; runs = []; combining = [] }

abbrev pub clear_rows : List RowDelta → List RowDelta
clear_rows [] = []
clear_rows (r ∷ rs) = clear_row r ∷ clear_rows rs

-- `Vec::pop`, which takes the last element.
abbrev pub take_last {ℓ} : {A : Type ℓ} → List A → Option (A × List A)
take_last [] = none
take_last (x ∷ xs) = elim (take_last xs) [ none ↦ some (x, []) | some (y, ys) ↦ some (y, x ∷ ys) ]

module _ {Style : Type 0} where
  unfoldable pub empty : GridSize → FrameDelta Style
  empty size = record {
    sequence = 0;
    style_epoch = 0;
    size = size;
    damage = clean;
    rows = [];
    cursor = default_cursor;
    selection = default_selection;
    styles = [];
    viewport = default_viewport;
    search_matches = [];
    hyperlinks = [];
    animation_region = none;
    spare_rows = [];
  }

  -- `spare_rows.append(&mut rows)` empties `rows`.
  unfoldable pub clear_for_reuse : FrameDelta Style → FrameDelta Style
  clear_for_reuse f = record f {
    rows = [];
    styles = [];
    search_matches = [];
    hyperlinks = [];
    animation_region = none;
    spare_rows = f.spare_rows ++ clear_rows f.rows;
  }

  unfoldable pub take_row : FrameDelta Style → RowDelta × FrameDelta Style
  take_row f = elim (take_last f.spare_rows) [
    | none ↦ (empty_row, f)
    | some (r, rest) ↦ (r, record f { spare_rows = rest })
  ]

unfoldable pub extras_at : RowDelta → ℕ → List ℕ
extras_at r col = find_extras r.combining
  where
    find_extras : List (ℕ × List ℕ) → List ℕ
    find_extras [] = []
    find_extras ((c, extras) ∷ rest) = if c == col then extras else find_extras rest
