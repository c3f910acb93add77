-- ===== src/History/Viewport.antt =====
-- The scroll position: `Viewport` of crates/mr-crabs-history/src/viewport.rs. `usize` has 64 bits.
pub mod Scrolling
use mr_crabs.Common.{
  ℕ, suc, ◌+◌, ◌-◌, Bool, true, false, not, Option, none, some, if◌then◌else◌, leb, ltb, ◌==◌, min,
}

abbrev pub usize_max : ℕ
usize_max = 18446744073709551615

abbrev pub saturating_add : ℕ → ℕ → ℕ
saturating_add a b = min (a + b) usize_max

pub record Viewport : Type 0 where
  pub primary_offset : ℕ
  pub alternate_screen : Bool

abbrev pub new : Viewport
new = record { primary_offset = 0; alternate_screen = false }

unfoldable pub offset : Viewport → ℕ
offset v = if v.alternate_screen then 0 else v.primary_offset

unfoldable pub sync_screen : Viewport → Bool → ℕ → Viewport
sync_screen v alternate_screen history_lines = record {
  primary_offset = min v.primary_offset history_lines;
  alternate_screen = alternate_screen;
}

unfoldable pub clamp : Viewport → ℕ → Viewport
clamp v history_lines = record v { primary_offset = min v.primary_offset history_lines }

unfoldable pub scroll_up : Viewport → ℕ → ℕ → Viewport
scroll_up v amount history_lines =
    if not v.alternate_screen
    then record v { primary_offset = min (saturating_add v.primary_offset amount) history_lines }
    else v

unfoldable pub scroll_down : Viewport → ℕ → Viewport
scroll_down v amount =
    if not v.alternate_screen then record v { primary_offset = v.primary_offset - amount } else v

unfoldable pub note_history_growth : Viewport → ℕ → ℕ → Viewport
note_history_growth v previous_history_lines history_lines =
    if not (v.primary_offset == 0)
    then record v {
      primary_offset =
          min (saturating_add v.primary_offset (history_lines - previous_history_lines))
            history_lines;
    }
    else v

unfoldable pub to_top : Viewport → ℕ → Viewport
to_top v history_lines =
    if not v.alternate_screen then record v { primary_offset = history_lines } else v

unfoldable pub reset : Viewport → Viewport
reset v = if not v.alternate_screen then record v { primary_offset = 0 } else v

unfoldable pub top_line : Viewport → ℕ → ℕ
unfolding offset
top_line v history_lines = history_lines - min (offset v) history_lines

unfoldable pub absolute_line : Viewport → ℕ → ℕ → ℕ → Option ℕ
unfolding top_line
absolute_line v row history_lines rows =
    if leb rows row
    then none
    else if leb (top_line v history_lines + row) usize_max
    then some (top_line v history_lines + row)
    else none
