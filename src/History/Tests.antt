-- ===== src/History/Tests.antt =====
-- Runs of scrolling and selection, and the theorems about them at concrete screens.
use mr_crabs.Common.{
  ℕ, ◌+◌, ◌-◌, ◌≤◌, ◌<◌, ◌≡◌, refl, ◌⊎◌, false, Bool, Option, none, some, List, [], ◌∷◌, arith,
  if◌then◌else◌, ltb, ◌==◌,
}
use mr_crabs.Grid.{Cell}
use mr_crabs.History.Viewport.{
  Viewport, new, offset, scroll_up, top_line, absolute_line, note_history_growth,
}
use mr_crabs.History.Viewport.Scrolling.{
  Reach, reach_new, reach_up, reach_growth, Command, up, down, top, Reach-absolute_line,
  note_history_growth-top_line,
}
use mr_crabs.History.Projection.{
  HistoryRead, NormalizedSnapshot, ViewportRow, viewport_row, ShowsLine, viewport_row-Visible,
}
use mr_crabs.History.Selection.{
  Selection, SelectionGesture, normalized, default_word_boundaries, boundary_at, expand_word,
  is_wrapped, expand_line,
}
use mr_crabs.History.Selection.Words.{IsWord, Free, StartsAt, expand_word-IsWord}
use mr_crabs.History.Selection.Rows.{ends, expand_line-Rows}

-- Thirty lines of output have passed, and the viewport is scrolled back by five.
abbrev back : Viewport
back = record { primary_offset = 5; alternate_screen = false }

back-Reach : Reach back 30
unfolding scroll_up note_history_growth
back-Reach =
    reach_up (note_history_growth new 0 30) 30 5 (reach_growth new 0 30 (omega arith) reach_new)

Reach-absolute_line_example :
    (5 ≤ 30)
    × (top_line back 30 + offset back ≡ 30)
    × (((2 < 24)
          × (absolute_line back 2 30 24 ≡ some (top_line back 30 + 2))
          × (top_line back 30 + 2 < 30 + 24))
        ⊎ ((24 ≤ 2) × (absolute_line back 2 30 24 ≡ none)))
Reach-absolute_line_example = Reach-absolute_line back 30 2 24 back-Reach (omega arith)

note_history_growth-top_line_example :
    ((back.primary_offset ≡ 0) × (top_line (note_history_growth back 30 33) 33 ≡ 33))
    ⊎ ((0 < back.primary_offset)
        × (top_line (note_history_growth back 30 33) 33 ≡ top_line back 30))
note_history_growth-top_line_example =
    note_history_growth-top_line back 30 33 (omega arith) (omega arith) (omega arith) refl

abbrev commands : List Command
commands = up 3 ∷ top ∷ down 1 ∷ []

abbrev letter : ℕ → Cell
letter c = record { content = c; style = 0; flags = 0 }

-- "a bc"
abbrev text : List Cell
text = letter 97 ∷ letter 32 ∷ letter 98 ∷ letter 99 ∷ []

expand_word_runs : expand_word text 3 default_word_boundaries ≡ (2, 3)
unfolding expand_word
expand_word_runs = refl

expand_word-IsWord_example :
    IsWord
      (λ i. boundary_at text i default_word_boundaries)
      4
      3
      (expand_word text 3 default_word_boundaries)
expand_word-IsWord_example =
    expand_word-IsWord text 3 default_word_boundaries (omega arith) (omega arith)

-- Two rows of two cells below thirty lines of history that cannot be read.
abbrev no_reader : HistoryRead
no_reader = record {
  history_len = 30;
  history_line_cols = λ _. none;
  read_history_line = λ _. none;
  read_history_line_combining = λ _. none;
}

abbrev screen : NormalizedSnapshot
screen = record { size = record { cols = 2; rows = 2 }; cells = text; combining_marks = [] }

abbrev bottom_view : Viewport
bottom_view = record { primary_offset = 0; alternate_screen = false }

viewport_row-Visible_example :
    ((2 ≤ 1) × (viewport_row no_reader screen bottom_view 1 ≡ some none))
    ⊎ ((1 < 2)
        × ((r : ViewportRow) × (viewport_row no_reader screen bottom_view 1 ≡ some (some r))
            × (r.absolute ≡ top_line bottom_view 30 + 1)
            × ShowsLine screen (r.absolute - 30) r))
unfolding top_line
viewport_row-Visible_example =
    viewport_row-Visible no_reader screen bottom_view 1 refl (omega arith) (omega arith)

-- Four rows of which the second is wrapped into the third.
abbrev rows : ℕ → Option (ℕ × Bool)
rows l = if ltb l 4 then some (80, l == 1) else none

expand_line_runs : expand_line 4 rows 2 ≡ some (1, 2)
unfolding expand_line
expand_line_runs = refl

expand_line-Rows_example :
    (start end : ℕ) × (expand_line 4 rows 1 ≡ some (start, end))
    × StartsAt (ends rows) start
    × (is_wrapped rows end ≡ false)
    × (start ≤ 1)
    × (1 ≤ end)
    × ((k : ℕ) × (end ≡ start + k) × Free (ends rows) start k)
expand_line-Rows_example = expand_line-Rows rows 1 1 4 refl (omega arith)

abbrev drag : Selection
drag = record {
  gesture = SelectionGesture.cell;
  anchor = record { line = 4; col = 2 };
  active = record { line = 3; col = 7 };
}

normalized_runs : normalized drag ≡ (drag.active, drag.anchor)
unfolding normalized
normalized_runs = refl
