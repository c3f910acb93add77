-- ===== src/History/Projection.antt =====
-- The rows that a viewport shows: `viewport_row` of
-- crates/mr-crabs-history/src/viewport.rs. The trait and the snapshot are in
-- crates/mr-crabs-terminal/src/lib.rs.
use mr_crabs.Common.{
  ℕ, ◌+◌, ◌-◌, ◌*◌, ◌%◌, ◌≤◌, ◌<◌, ◌≡◌, refl, ap, sym, subst, ◌∙◌, ◌⊎◌, inl, inr, Bool, true, false,
  not, ◌&&◌, Option, none, some, List, [], ◌∷◌, ◌>>=◌, if◌then◌else◌, leb, ltb, length, take, drop,
  length-take-drop, arith, Bool-cases, get_elem?, zero, suc,
}
use mr_crabs.Grid.{GridSize, Cell}
use mr_crabs.History.Viewport.{Viewport, absolute_line, top_line, usize_max}

-- The trait `HistoryRead`. Reading changes a cache only, and gives `none` where the source gives
-- `false`.
pub record HistoryRead : Type 0 where
  pub history_len : ℕ
  pub history_line_cols : ℕ → Option ℕ
  pub read_history_line : ℕ → Option (List Cell)
  pub read_history_line_combining : ℕ → Option (List (ℕ × List ℕ))

pub record CombiningMarks : Type 0 where
  pub cell_index : ℕ
  pub codepoints : List ℕ

-- The fields of `NormalizedSnapshot` that `viewport_row` reads.
pub record NormalizedSnapshot : Type 0 where
  pub size : GridSize
  pub cells : List Cell
  pub combining_marks : List CombiningMarks

pub record ViewportRow : Type 0 where
  pub absolute : ℕ
  pub cols : ℕ
  pub cells : List Cell
  pub combining : List (ℕ × List ℕ)

abbrev pub is_empty_marks : List ℕ → Bool
is_empty_marks [] = true
is_empty_marks (_ ∷ _) = false

-- The marks of the cells from `start` to before `end`, with their columns.
abbrev pub marks_between : ℕ → ℕ → List CombiningMarks → List (ℕ × List ℕ)
marks_between start end [] = []
marks_between start end (m ∷ ms) =
    if leb start m.cell_index && ltb m.cell_index end && not (is_empty_marks m.codepoints)
    then ((m.cell_index - start) % 65536, m.codepoints) ∷ marks_between start end ms
    else marks_between start end ms

-- `cells[start..start + n].to_vec()`; `none` is its panic.
abbrev pub slice : ℕ → ℕ → List Cell → Option (List Cell)
slice start n cells =
    if leb (start + n) (length cells) then some (take n (drop start cells)) else none

abbrev pub fit_cols : ℕ → Option ℕ
fit_cols n = if leb n 65535 then some n else none

unfoldable pub history_row : HistoryRead → ℕ → Option ViewportRow
history_row reader absolute = do
  width ← reader.history_line_cols absolute
  cols ← fit_cols width
  cells ← reader.read_history_line absolute
  combining ← reader.read_history_line_combining absolute
  some (record { absolute = absolute; cols = cols; cells = cells; combining = combining })

-- The row of the visible grid, `screen_row` rows from its top.
unfoldable pub screen_row_at : NormalizedSnapshot → ℕ → ℕ → Option ViewportRow
screen_row_at snapshot absolute screen_row = do
  let cols = snapshot.size.cols
  let start = screen_row * cols
  cells ← slice start cols snapshot.cells
  some (record {
    absolute = absolute;
    cols = cols;
    cells = cells;
    combining = marks_between start (start + cols) snapshot.combining_marks;
  })

-- `viewport_row` with the result of `absolute_line`. `none` is a panic, and `some none` the result
-- `None`.
unfoldable pub row_at : HistoryRead → NormalizedSnapshot → Option ℕ → Option (Option ViewportRow)
unfolding history_row screen_row_at
row_at reader snapshot none = some none
row_at reader snapshot (some absolute) =
    if ltb absolute reader.history_len
    then some (history_row reader absolute)
    else do r ← screen_row_at snapshot absolute (absolute - reader.history_len); some (some r)

unfoldable pub viewport_row :
    HistoryRead → NormalizedSnapshot → Viewport → ℕ → Option (Option ViewportRow)
unfolding row_at
viewport_row reader snapshot viewport row =
    row_at reader snapshot (absolute_line viewport row reader.history_len snapshot.size.rows)

-- The row has the width of the grid, and its cells are those of the given line of the grid.
pub record ShowsLine (snapshot : NormalizedSnapshot) (line : ℕ) (r : ViewportRow) : Type 0 where
  pub width : r.cols ≡ snapshot.size.cols
  pub full : length r.cells ≡ snapshot.size.cols
  pub cell :
      (c : ℕ)
      → c < snapshot.size.cols
      → get_elem? r.cells c ≡ get_elem? snapshot.cells (line * snapshot.size.cols + c)

get_elem?-take :
    {A : Type 0} (n c : ℕ) (xs : List A) → c < n → get_elem? (take n xs) c ≡ get_elem? xs c
get_elem?-take zero c xs h = absurd (omega (arith, h))
get_elem?-take (suc n) c [] h = refl
get_elem?-take (suc n) zero (x ∷ xs) h = refl
get_elem?-take (suc n) (suc c) (x ∷ xs) h = get_elem?-take n c xs (omega (arith, h))

get_elem?-drop :
    {A : Type 0} (n c : ℕ) (xs : List A) → get_elem? (drop n xs) c ≡ get_elem? xs (n + c)
get_elem?-drop zero c xs = ap (λ k. get_elem? xs k) (zero_add c)
  where
    zero_add : (c : ℕ) → c ≡ 0 + c
    zero_add c = omega arith
get_elem?-drop (suc n) c [] = refl
get_elem?-drop (suc n) c (x ∷ xs) =
    get_elem?-drop n c xs ∙ ap (λ k. get_elem? (x ∷ xs) k) (shift n c)
  where
    shift : (n c : ℕ) → suc (n + c) ≡ suc n + c
    shift n c = omega arith

mul_mono : (s c d : ℕ) → s * c + c ≤ (s + 1 + d) * c
mul_mono s c d = grind arith

slice_lem :
    (s rows cols : ℕ) (cells : List Cell)
    → length cells ≡ rows * cols
    → s < rows
    → (slice (s * cols) cols cells ≡ some (take cols (drop (s * cols) cells)))
      × (length (take cols (drop (s * cols) cells)) ≡ cols)
slice_lem s rows cols cells full inside =
    (rw room refl, length-take-drop (s * cols) cols cells fits)
  where
    whole : s + 1 + (rows - (s + 1)) ≡ rows
    whole = omega (arith, inside)

    fits : s * cols + cols ≤ length cells
    fits =
        subst (λ n. s * cols + cols ≤ n) (ap (λ r. r * cols) whole ∙ sym full)
          (mul_mono s cols (rows - (s + 1)))

    room : leb (s * cols + cols) (length cells) ≡ true
    room = ground (arith, fits)

-- On a grid with all its cells, and no more lines than numbers, a row in range that lies in the
-- visible part shows the cells of the grid's line that is as far below the top of the grid as its
-- absolute line is below the end of the history, in the full width. A row from the height on shows
-- nothing. There is no panic in either case.
pub viewport_row-Visible :
    (reader : HistoryRead) (snapshot : NormalizedSnapshot) (viewport : Viewport) (row : ℕ)
    → length snapshot.cells ≡ snapshot.size.rows * snapshot.size.cols
    → reader.history_len + snapshot.size.rows ≤ usize_max
    → reader.history_len ≤ top_line viewport reader.history_len + row
    → ((snapshot.size.rows ≤ row) × (viewport_row reader snapshot viewport row ≡ some none))
      ⊎ ((row < snapshot.size.rows)
          × ((r : ViewportRow) × (viewport_row reader snapshot viewport row ≡ some (some r))
              × (r.absolute ≡ top_line viewport reader.history_len + row)
              × ShowsLine snapshot (r.absolute - reader.history_len) r))
unfolding viewport_row
viewport_row-Visible reader snapshot viewport row full fits visible =
    elim (Bool-cases (leb rows row)) [
      | inl beyond ↦ inl (ground (arith, beyond), ap (row_at reader snapshot) (hidden beyond))
      | inr within ↦
          let (cut, size) =
            slice_lem (top + row - h) rows cols snapshot.cells full (inside within) in
          inr (
            ground (arith, within),
            (
              shown,
              ap (row_at reader snapshot) (at within) ∙ drawn cut,
              refl,
              record {
                width = refl;
                full = size;
                cell = λ c lt. cell_of_slice (top + row - h) c lt;
              },
            ),
          )
    ]
  where
    cell_of_slice :
        (s c : ℕ)
        → c < snapshot.size.cols
        → get_elem? (take snapshot.size.cols (drop (s * snapshot.size.cols) snapshot.cells)) c
          ≡ get_elem? snapshot.cells (s * snapshot.size.cols + c)
    cell_of_slice s c lt =
        get_elem?-take snapshot.size.cols c (drop (s * snapshot.size.cols) snapshot.cells) lt
        ∙ get_elem?-drop (s * snapshot.size.cols) c snapshot.cells

    h : ℕ
    h = reader.history_len

    rows : ℕ
    rows = snapshot.size.rows

    cols : ℕ
    cols = snapshot.size.cols

    top : ℕ
    top = top_line viewport h

    shown : ViewportRow
    shown = record {
      absolute = top + row;
      cols = cols;
      cells = take cols (drop ((top + row - h) * cols) snapshot.cells);
      combining =
          marks_between ((top + row - h) * cols) ((top + row - h) * cols + cols)
            snapshot.combining_marks;
    }

    top_below : top ≤ h
    top_below = unfold top_line in omega arith

    hidden : leb rows row ≡ true → absolute_line viewport row h rows ≡ none
    hidden beyond = unfold absolute_line in rw beyond refl

    at : leb rows row ≡ false → absolute_line viewport row h rows ≡ some (top + row)
    at within = unfold absolute_line in rw (within, small within) refl
      where
        small : leb rows row ≡ false → leb (top + row) usize_max ≡ true
        small w = ground (arith, w, top_below, fits)

    inside : leb rows row ≡ false → top + row - h < rows
    inside within = ground (arith, within, top_below, visible)

    in_grid : ltb (top + row) h ≡ false
    in_grid = ground (arith, visible)

    drawn :
        slice ((top + row - h) * cols) cols snapshot.cells
          ≡ some (take cols (drop ((top + row - h) * cols) snapshot.cells))
        → row_at reader snapshot (some (top + row)) ≡ some (some shown)
    drawn cut = unfold row_at screen_row_at in rw (in_grid, cut) refl
