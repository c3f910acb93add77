-- ===== src/Storage/Ingest.antt =====
-- New lines: `ingest_owned_row`, `ingest_owned_rows_with_bounds`, `ingest_owned_flat_page` and
-- `push_line` of crates/mr-crabs-terminal/src/storage.rs.
use mr_crabs.Common.{
  ℕ, suc, ◌+◌, ◌-◌, ◌*◌, Bool, true, false, not, ◌&&◌, ◌||◌, Option, some, none, List, [], ◌∷◌,
  ◌++◌, take, drop, length, replicate, ltb, leb, ◌==◌, if◌then◌else◌, min, max, add_u64, ◌>>=◌,
}
use mr_crabs.Grid.{Cell}
use mr_crabs.Persist.Format.{default_cell}
use mr_crabs.Storage.{
  RowDesc, Resident, flat, segmented, Page, ScrollbackStorage, rows, count_blank, unsnoc, is_cold,
  is_flat, is_segmented, is_some, is_default, all_default, is_empty_row,
}
use mr_crabs.Storage.Codec.{Lz4}
use mr_crabs.Storage.Limit.{enforce_max_lines}
use mr_crabs.Storage.Compress.{unwrap_or, maybe_enqueue_full_pages}

abbrev pub usize_of : Bool → ℕ
usize_of true = 1
usize_of false = 0

abbrev pub push_desc : RowDesc → Option Resident → Option Resident
push_desc d (some (segmented ds)) = some (segmented (ds ++ (d ∷ [])))
push_desc d r = r

abbrev pub append_row : RowDesc → Page → Page
append_row d p = record p {
  resident = push_desc d p.resident;
  lines = p.lines + 1;
  empty_lines = p.empty_lines + usize_of (is_empty_row d);
}

abbrev pub can_append : RowDesc → ℕ → Page → Bool
can_append d generation p =
    not (is_cold p)
    && not p.pending
    && ltb p.lines p.capacity_lines
    && is_segmented p.resident
    && (p.cols == d.cols)
    && (p.generation == generation)

abbrev pub row_page : RowDesc → ℕ → ScrollbackStorage → Page
row_page d generation s = record {
  id = s.next_page_id;
  generation = generation;
  lines = 1;
  empty_lines = usize_of (is_empty_row d);
  cols = d.cols;
  capacity_lines = max s.config.hot_page_lines 1;
  resident = some (segmented (d ∷ []));
  compressed = none;
  sparse = false;
  pending = false;
  combining = [];
}

-- `if self.history.len() > 1 { enqueue_cursor = enqueue_cursor.min(len - back) }`.
abbrev pub rewind : ℕ → List Page → ℕ → ℕ
rewind back history cursor =
    if ltb 1 (length history) then min cursor (length history - back) else cursor

unfoldable pub add_row_page : RowDesc → ℕ → ScrollbackStorage → ScrollbackStorage
add_row_page d generation s =
    let history = s.history ++ (row_page d generation s ∷ []) in
    maybe_enqueue_full_pages (record s {
      history = history;
      next_page_id = add_u64 s.next_page_id 1;
      logical_lines = s.logical_lines + 1;
      enqueue_cursor = rewind 2 history s.enqueue_cursor;
      cold_cache = none;
    })

abbrev pub add_to_back :
    RowDesc → ℕ → ScrollbackStorage → Option (List Page × Page) → ScrollbackStorage
add_to_back d generation s none = add_row_page d generation s
add_to_back d generation s (some (front, back)) =
    if can_append d generation back
    then record s {
      history = front ++ (append_row d back ∷ []);
      logical_lines = s.logical_lines + 1;
      cold_cache = none;
    }
    else add_row_page d generation s

-- `ingest_owned_row_inner` without the limit.
unfoldable pub add_row : RowDesc → ℕ → ScrollbackStorage → ScrollbackStorage
add_row d generation s = if d.cols == 0 then s else add_to_back d generation s (unsnoc s.history)

unfoldable pub add_rows : List (RowDesc × ℕ) → ScrollbackStorage → ScrollbackStorage
add_rows [] s = s
add_rows ((d, generation) ∷ ds) s = add_rows ds (add_row d generation s)

-- The place of the first cell that is not blank.
abbrev pub occupied_position : List Cell → Option ℕ
occupied_position [] = none
occupied_position (c ∷ cs) =
    let rest = occupied_position cs in if is_default c then (rest >>= λ i. some (suc i)) else some 0

module _ (lz4 : Lz4) where
  unfoldable pub ingest_owned_rows_with_bounds :
      List (RowDesc × ℕ) → ScrollbackStorage → ScrollbackStorage
  ingest_owned_rows_with_bounds ds s = enforce_max_lines lz4 (add_rows ds s)

  unfoldable pub ingest_owned_row :
      List Cell → ℕ → ℕ → Bool → ℕ → ScrollbackStorage → ScrollbackStorage
  unfolding add_row
  ingest_owned_row cells cols occupancy wrapped generation s =
      let first = unwrap_or (occupied_position (take (min occupancy cols) cells)) cols in
      let d : RowDesc = record {
        cells = cells;
        cols = cols;
        occupancy = occupancy;
        first_occupied = first;
        wrapped = wrapped;
        combining = none;
      } in
      if cols == 0 then s else enforce_max_lines lz4 (add_row d generation s)

  unfoldable pub ingest_owned_flat_page :
      List Cell → ℕ → ℕ → ℕ → ScrollbackStorage → ScrollbackStorage
  ingest_owned_flat_page cells cols lines generation s =
      let page : Page = record {
        id = s.next_page_id;
        generation = generation;
        lines = lines;
        empty_lines = count_blank (rows cols lines cells);
        cols = cols;
        capacity_lines = lines;
        resident = some (flat cells);
        compressed = none;
        sparse = false;
        pending = false;
        combining = [];
      } in
      let history = s.history ++ (page ∷ []) in
      if (cols == 0) || (lines == 0)
      then s
      else enforce_max_lines lz4 (
          maybe_enqueue_full_pages (record s {
            history = history;
            next_page_id = add_u64 s.next_page_id 1;
            logical_lines = s.logical_lines + lines;
            enqueue_cursor = rewind 1 history s.enqueue_cursor;
            cold_cache = none;
          }))

-- `buf[start..start + xs.len()].copy_from_slice(xs)`.
abbrev pub write_at : ℕ → List Cell → List Cell → List Cell
write_at start xs buf = take start buf ++ (xs ++ drop (start + length xs) buf)

abbrev pub need_new_page : ℕ → Page → Bool
need_new_page cols p =
    not (is_flat p.resident) || not (p.cols == cols) || is_cold p || leb p.capacity_lines p.lines

-- The first `cols` cells of a pushed line.
abbrev pub within_cols : ℕ → List Cell → List Cell
within_cols cols cells = take (min (length cells) cols) cells

-- A page of blank cells with the line in front; `none` is the panic of a page without room for it.
abbrev pub add_flat_page : ℕ → List Cell → ScrollbackStorage → Option ScrollbackStorage
add_flat_page cols cells s =
    let capacity = s.config.hot_page_lines in
    let line = within_cols cols cells in
    if ltb (capacity * cols) (length line)
    then none
    else some (record s {
      history =
          s.history
          ++ (record {
            id = s.next_page_id;
            generation = 0;
            lines = 1;
            empty_lines = usize_of (all_default line);
            cols = cols;
            capacity_lines = capacity;
            resident = some (flat (write_at 0 line (replicate (capacity * cols) default_cell)));
            compressed = none;
            sparse = false;
            pending = false;
            combining = [];
          }
              ∷ []);
      next_page_id = add_u64 s.next_page_id 1;
      logical_lines = s.logical_lines + 1;
    })

abbrev pub write_flat : ℕ → List Cell → Option Resident → Option Resident
write_flat start line (some (flat buf)) = some (flat (write_at start line buf))
write_flat start line r = r

-- A job on its way for the page is made stale.
abbrev pub invalidate : Page → Page
invalidate p =
    if is_some p.compressed
    then record p { compressed = none; generation = add_u64 p.generation 1 }
    else if p.pending
    then record p { generation = add_u64 p.generation 1; pending = false }
    else p

abbrev pub write_line : ℕ → List Cell → Page → Page
write_line cols cells p =
    let line = within_cols cols cells in
    let p' = invalidate (record p { resident = write_flat (p.lines * cols) line p.resident }) in
    record p' { lines = p'.lines + 1; empty_lines = p'.empty_lines + usize_of (all_default line) }

abbrev pub push_to_back :
    ℕ → List Cell → ScrollbackStorage → Option (List Page × Page) → Option ScrollbackStorage
push_to_back cols cells s none = add_flat_page cols cells s
push_to_back cols cells s (some (front, back)) =
    if need_new_page cols back
    then add_flat_page cols cells s
    else some (record s {
      history = front ++ (write_line cols cells back ∷ []);
      logical_lines = s.logical_lines + 1;
    })

module _ (lz4 : Lz4) where
  unfoldable pub push_line : ℕ → List Cell → ScrollbackStorage → Option ScrollbackStorage
  push_line cols cells s =
      if cols == 0
      then some s
      else push_to_back cols cells s (unsnoc s.history) >>= λ s'.
          some (enforce_max_lines lz4 (maybe_enqueue_full_pages s'))
