-- ===== src/Frame/Tests.antt =====
-- Runs of the batching and of the frame pool, and the theorems about them at concrete rows and frames.
use mr_crabs.Common.{ℕ, ◌≤◌, ◌≡◌, refl, some, List, [], ◌∷◌, arith}
use mr_crabs.Grid.{GridSize, Cell, wide, wide_spacer}
use mr_crabs.Frame.{FrameDelta, Run, empty, empty_row}
use mr_crabs.Frame.Runs.{batch_runs, batch_from, close_run}
use mr_crabs.Frame.Batch.{Batched, run_of, batch_runs-Batched}
use mr_crabs.Frame.Pool.{FramePool, new, acquire, release, capacity, len}
use mr_crabs.Frame.Recycle.{Reach, reach_new, reach_release, SameFrame, Reach-acquire}

abbrev cell : ℕ → ℕ → Cell
cell style flags = record { content = 65; style = style; flags = flags }

-- A wide character of style 1 whose spacer has style 2 already, and a character of style 2.
abbrev row : List Cell
row = cell 1 0 ∷ cell 1 wide ∷ cell 2 wide_spacer ∷ cell 2 0 ∷ []

row_runs : batch_runs row ≡ some (run_of 0 3 1 ∷ run_of 3 1 2 ∷ [])
unfolding batch_runs batch_from close_run
row_runs = refl

batch_runs-Batched_example : (rs : List Run) × (batch_runs row ≡ some rs) × Batched 0 row rs
batch_runs-Batched_example = batch_runs-Batched row (omega arith)

abbrev size : GridSize
size = record { cols = 80; rows = 24 }

abbrev used : FrameDelta ℕ
unfolding empty
used = record (empty size) {
  sequence = 7;
  rows = record empty_row { cells = row } ∷ [];
  styles = 5 ∷ [];
}

abbrev pool : FramePool ℕ
unfolding new release
pool = release (new 2) used

pool-Reach : Reach 2 pool
unfolding release new
pool-Reach = reach_release (new 2) used reach_new

Reach-acquire_example :
    (capacity pool ≡ 2)
    × (len pool ≤ 2)
    × SameFrame (acquire pool 8 size).1 (record (empty size) { sequence = 8 })
Reach-acquire_example = Reach-acquire 2 pool 8 size pool-Reach
