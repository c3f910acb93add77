-- ===== src/Frame/Batch.antt =====
-- What the runs of a row are: `batch_runs` of crates/mr-crabs-terminal/src/delta.rs.
use mr_crabs.Common.{
  ℕ, suc, ◌+◌, ◌-◌, ◌≤◌, ◌≡◌, refl, ap, subst, ◌∙◌, ◌⊎◌, inl, inr, Bool, true, false, ◌||◌, some,
  List, [], ◌∷◌, ◌++◌, ◌==◌, length, Bool-cases, arith,
}
use mr_crabs.Grid.{Cell}
use mr_crabs.Frame.{Run}
use mr_crabs.Frame.Runs.{is_wide, fit_u16, close_run, batch_from, batch_runs}

abbrev pub run_of : ℕ → ℕ → ℕ → Run
run_of start len style = record { start_col = start; len = len; style = style }

-- Each cell has the style, or stands behind a wide one; `w` says whether the cell before is wide.
abbrev pub Follows : ℕ → Bool → List Cell → Type 0
Follows style w [] = Unit
Follows style w (c ∷ cs) = (((c.style == style) ≡ true) ⊎ (w ≡ true)) × Follows style (is_wide c) cs

-- Whether the last cell is wide, where `w` speaks of the cell before the first.
abbrev pub ends_wide : Bool → List Cell → Bool
ends_wide w [] = w
ends_wide w (c ∷ cs) = ends_wide (is_wide c) cs

-- A run of the style can end before these cells: none are left, or the next cell has another style
-- and the run does not end in a wide cell.
abbrev pub EndsBefore : ℕ → Bool → List Cell → Type 0
EndsBefore style w [] = Unit
EndsBefore style w (c ∷ _) = ((c.style == style) ≡ false) × (w ≡ false)

-- The runs cut the cells from column `k` on into segments without a gap, each as long as the rule
-- allows, and each run tells the column, the length and the first cell's style of its segment.
abbrev pub Batched : ℕ → List Cell → List Run → Type 0
Batched k cells [] = cells ≡ []
Batched k cells (r ∷ rs) =
    (c : Cell) × (segment rest : List Cell) × (cells ≡ c ∷ (segment ++ rest))
    × (r ≡ run_of k (suc (length segment)) c.style)
    × Follows c.style (is_wide c) segment
    × EndsBefore c.style (ends_wide (is_wide c) segment) rest
    × Batched (k + suc (length segment)) rest rs

fit_u16_lem : (n : ℕ) → n ≤ 65535 → fit_u16 n ≡ some n
fit_u16_lem n h = ground arith

close_run_lem :
    (start i style : ℕ)
    → start ≤ i
    → i ≤ 65535
    → close_run start i style ≡ some (run_of start (i - start) style)
unfolding close_run
close_run_lem start i style h b =
    rw (fit_u16_lem start (omega arith), fit_u16_lem (i - start) (omega arith)) refl

-- What the loop makes of the cells that are left.
abbrev Loops : ℕ → ℕ → Bool → ℕ → List Cell → Type 0
Loops start style w i cells =
    (segment rest : List Cell) × (rs : List Run) × (cells ≡ segment ++ rest)
    × (batch_from start style w i cells
        ≡ some (run_of start ((i + length segment) - start) style ∷ rs))
    × Follows style w segment
    × EndsBefore style (ends_wide w segment) rest
    × Batched (i + length segment) rest rs

module _ (start style : ℕ) (w : Bool) (i : ℕ) (c : Cell) (cs : List Cell) where
  batch_from-longer :
      ((c.style == style) || w) ≡ true
      → batch_from start style w i (c ∷ cs) ≡ batch_from start style (is_wide c) (i + 1) cs
  unfolding batch_from
  batch_from-longer same = rw same refl

  batch_from-next :
      (rs : List Run)
      → start ≤ i
      → i ≤ 65535
      → ((c.style == style) || w) ≡ false
      → batch_from i c.style (is_wide c) (i + 1) cs ≡ some rs
      → batch_from start style w i (c ∷ cs) ≡ some (run_of start (i - start) style ∷ rs)
  unfolding batch_from
  batch_from-next rs h b other e = rw (other, close_run_lem start i style h b, e) refl

  Loops-longer :
      ((c.style == style) || w) ≡ true
      → Loops start style (is_wide c) (i + 1) cs
      → Loops start style w i (c ∷ cs)
  Loops-longer same (segment, rest, rs, e, run, f, b, t) = (
    c ∷ segment,
    rest,
    rs,
    rw e refl,
    batch_from-longer same
        ∙ run
        ∙ ap (λ n. some (run_of start (n - start) style ∷ rs)) (omega arith),
    (either, f),
    b,
    subst (λ n. Batched n rest rs) (omega arith) t,
  )
    where
      either : ((c.style == style) ≡ true) ⊎ (w ≡ true)
      either = ground (arith, same)

  Loops-next :
      start ≤ i
      → i ≤ 65535
      → ((c.style == style) || w) ≡ false
      → Loops i c.style (is_wide c) (i + 1) cs
      → Loops start style w i (c ∷ cs)
  Loops-next h bound other (segment, rest, rs, e, run, f, b, t) = (
    [],
    c ∷ cs,
    run_of i (suc (length segment)) c.style ∷ rs,
    refl,
    batch_from-next (run_of i (suc (length segment)) c.style ∷ rs) h bound other
          (run ∙ ap (λ n. some (run_of i n c.style ∷ rs)) (omega arith))
        ∙ ap
            (λ n.
              some (run_of start (n - start) style ∷ run_of i (suc (length segment)) c.style ∷ rs))
            (omega arith),
    tt,
    (ground (arith, other), ground (arith, other)),
    (
      c,
      segment,
      rest,
      rw e refl,
      ap (λ n. run_of n (suc (length segment)) c.style) (omega arith),
      f,
      b,
      subst (λ n. Batched n rest rs) (omega arith) t,
    ),
  )

batch_from-Loops :
    (start style : ℕ) (w : Bool) (i : ℕ) (cells : List Cell)
    → start ≤ i
    → i + length cells ≤ 65535
    → Loops start style w i cells
batch_from-Loops start style w i [] h b = (
  [],
  [],
  [],
  refl,
  last ∙ ap (λ n. some (run_of start (n - start) style ∷ [])) (omega arith),
  tt,
  tt,
  refl,
)
  where
    last : batch_from start style w i [] ≡ some (run_of start (i - start) style ∷ [])
    last = unfold batch_from in rw (close_run_lem start i style h (omega arith)) refl
batch_from-Loops start style w i (c ∷ cs) h b = elim (Bool-cases ((c.style == style) || w)) [
  | inl same ↦
      Loops-longer start style w i c cs same
        (batch_from-Loops start style (is_wide c) (i + 1) cs (omega arith) (omega arith))
  | inr other ↦
      Loops-next start style w i c cs h (omega arith) other
        (batch_from-Loops i c.style (is_wide c) (i + 1) cs (omega arith) (omega arith))
]

-- On a row of at most 65535 cells, `batch_runs` does not panic, and its runs cut the row into
-- consecutive segments: a cell of a segment has the style of the first one or stands behind a wide
-- cell, the cell behind a segment has another style, and no segment but the last ends in a wide cell.
pub batch_runs-Batched :
    (cells : List Cell)
    → length cells ≤ 65535
    → (rs : List Run) × (batch_runs cells ≡ some rs) × Batched 0 cells rs
unfolding batch_runs
batch_runs-Batched [] h = ([], refl, refl)
batch_runs-Batched (c ∷ cs) h =
    of_loops (batch_from-Loops 0 c.style (is_wide c) 1 cs (omega arith) (omega arith))
  where
    of_loops :
        Loops 0 c.style (is_wide c) 1 cs
        → (rs : List Run) × (batch_runs (c ∷ cs) ≡ some rs) × Batched 0 (c ∷ cs) rs
    of_loops (segment, rest, rs, e, run, f, b, t) = (
      run_of 0 (suc (length segment)) c.style ∷ rs,
      run ∙ ap (λ n. some (run_of 0 n c.style ∷ rs)) (omega arith),
      (c, segment, rest, rw e refl, refl, f, b, subst (λ n. Batched n rest rs) (omega arith) t),
    )
