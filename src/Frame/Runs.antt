-- ===== src/Frame/Runs.antt =====
-- Batching a row of cells into runs of one style: `batch_runs` of
-- crates/mr-crabs-terminal/src/delta.rs. `none` is a panic of `u16::try_from(…).expect(…)`.
use mr_crabs.Common.{
  ℕ, ◌+◌, ◌-◌, Bool, ◌||◌, Option, none, some, List, [], ◌∷◌, ◌>>=◌, if◌then◌else◌, ◌==◌, leb,
}
use mr_crabs.Grid.{Cell, wide, has_flag}
use mr_crabs.Frame.{Run}

abbrev pub is_wide : Cell → Bool
is_wide c = has_flag c wide

-- `u16::try_from(n).expect(…)`.
abbrev pub fit_u16 : ℕ → Option ℕ
fit_u16 n = if leb n 65535 then some n else none

unfoldable pub close_run : ℕ → ℕ → ℕ → Option Run
close_run start i style = do
  start_col ← fit_u16 start
  len ← fit_u16 (i - start)
  some (record { start_col = start_col; len = len; style = style })

-- The loop from index `i` on, over the cells from there: `style` is that of the cell at `start`, and
-- `previous_is_wide` speaks of the cell before `i`.
unfoldable pub batch_from : ℕ → ℕ → Bool → ℕ → List Cell → Option (List Run)
unfolding close_run
batch_from start style previous_is_wide i [] = do r ← close_run start i style; some (r ∷ [])
batch_from start style previous_is_wide i (c ∷ cs) =
    let longer = batch_from start style (is_wide c) (i + 1) cs in
    let rest = batch_from i c.style (is_wide c) (i + 1) cs in
    if (c.style == style) || previous_is_wide
    then longer
    else (do r ← close_run start i style; rs ← rest; some (r ∷ rs))

unfoldable pub batch_runs : List Cell → Option (List Run)
unfolding batch_from
batch_runs [] = some []
batch_runs (c ∷ cs) = batch_from 0 c.style (is_wide c) 1 cs
