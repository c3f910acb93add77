-- ===== src/Storage/Tests.antt =====
-- Runs of the scrollback of crates/mr-crabs-terminal/src/storage.rs, and the theorems at concrete
-- inputs. The blocks of the runs are not packed at all.
use mr_crabs.Common.{
  ℕ, ◌+◌, ◌-◌, ◌<◌, ◌≡◌, ◌⊎◌, refl, subst, true, false, Option, some, none, List, [], ◌∷◌, length,
  take, drop, arith,
}
use mr_crabs.Grid.{Cell}
use mr_crabs.Persist.Format.{default_cell}
use mr_crabs.Storage.{ScrollbackConfig, ScrollbackStorage, RowDesc, segmented, Page, Job, new}
use mr_crabs.Storage.Codec.{
  Lz4, IsLossless, compress_payload, decode_page, decode_block, decode_sparse, take_u16, take_u32,
}
use mr_crabs.Storage.Compress.{
  maybe_enqueue_full_pages, visit, scan_pages, worker_takes, worker_sends, apply_completion,
  apply_pages, apply_all, apply_available_completions, poll_compression, drain_loop,
  drain_compression, retain_recycled_rows,
}
use mr_crabs.Storage.Limit.{
  enforce_max_lines, enforce_pages, truncate_lines, truncate_pages, cut_back,
}
use mr_crabs.Storage.Ingest.{
  ingest_owned_rows_with_bounds, add_rows, add_row, add_row_page, push_line,
}
use mr_crabs.Storage.Read.{
  Line, read_line_with_combining, read_at, line_cols, locate, fill_cache, fold_lines, fold_pages,
}
use mr_crabs.Storage.Bounded.{IsBlocked}
use mr_crabs.Storage.Booking.{IsTracked}
use mr_crabs.Storage.Growth.{cells_of_rows, ingest_owned_rows_with_bounds-Appends}
use mr_crabs.Storage.Tracking.{Tracks}
use mr_crabs.Storage.Frozen.{landing, packed-IsPage}
use mr_crabs.Storage.Sparse.{IsPayload, IsRow}
use mr_crabs.Storage.Polling.{poll_compression-Polls, Polls}
use mr_crabs.Storage.Settled.{Fits, worker_sends-Tracks}
use mr_crabs.Storage.Truncation.{AllHere, truncate_lines-take}
use mr_crabs.Storage.Pages.{IsStorage, IsPage, lines, page_rows}

abbrev verbatim : Lz4
verbatim = record { compress_bytes = λ b. b; decompress_bytes = λ b n. some b }

abbrev verbatim-IsLossless : IsLossless verbatim
verbatim-IsLossless = record { undone = λ b. refl }

abbrev letter : ℕ → Cell
letter n = record { content = n; style = 0; flags = 0 }

-- A row of two cells, the first of them a letter.
abbrev row : ℕ → RowDesc
row n = record {
  cells = letter n ∷ default_cell ∷ [];
  cols = 2;
  occupancy = 1;
  first_occupied = 0;
  wrapped = false;
  combining = none;
}

abbrev small : ScrollbackConfig
small = record {
  max_lines = 4;
  hot_page_lines = 2;
  max_queued_jobs = 16;
  max_pending_completions = 16;
}

abbrev three_rows : List (RowDesc × ℕ)
three_rows = (row 65, 0) ∷ (row 66, 0) ∷ (row 67, 0) ∷ []

abbrev fresh : ScrollbackStorage
unfolding new
fresh = new 2 small

-- Three rows: a full page, which is on its way through the worker, and one with a row.
abbrev three : ScrollbackStorage
unfolding new add_rows add_row add_row_page maybe_enqueue_full_pages scan_pages visit
three = add_rows three_rows fresh

three_lines :
    lines verbatim three
    ≡ (letter 65 ∷ default_cell ∷ [])
      ∷ (letter 66 ∷ default_cell ∷ [])
      ∷ (letter 67 ∷ default_cell ∷ [])
      ∷ []
unfolding new add_rows add_row add_row_page maybe_enqueue_full_pages scan_pages visit
three_lines = refl

-- The first page is with the worker, so that cutting into it drops a line that was to stay.
truncate_in_flight : (truncate_lines verbatim 1 three).logical_lines ≡ 0
unfolding new add_rows add_row add_row_page maybe_enqueue_full_pages scan_pages visit truncate_lines
    truncate_pages cut_back decode_page
truncate_in_flight = refl

abbrev or_fresh : Option ScrollbackStorage → ScrollbackStorage
unfolding new
or_fresh none = fresh
or_fresh (some s) = s

-- Two lines of two cells in a page.
abbrev pushed : ScrollbackStorage
unfolding new push_line maybe_enqueue_full_pages scan_pages visit enforce_max_lines enforce_pages
pushed = or_fresh (
    push_line verbatim 2 (letter 68 ∷ letter 69 ∷ [])
      (or_fresh (push_line verbatim 2 (letter 66 ∷ letter 67 ∷ []) fresh)))

-- The second line is cut off, and a line of one cell pushed in its place shows a cell of it.
push_line_after_truncate :
    lines verbatim
      (or_fresh (push_line verbatim 2 (letter 70 ∷ []) (truncate_lines verbatim 1 pushed)))
    ≡ (letter 66 ∷ letter 67 ∷ []) ∷ (letter 70 ∷ letter 69 ∷ []) ∷ []
unfolding new push_line maybe_enqueue_full_pages scan_pages visit enforce_max_lines enforce_pages
    truncate_lines truncate_pages cut_back decode_page
push_line_after_truncate = refl

-- Without room for a line in a page a push panics.
push_line_no_room :
    push_line verbatim 2
      (letter 66 ∷ [])
      (record fresh { config = record small { hot_page_lines = 0 } })
    ≡ none
unfolding new push_line
push_line_no_room = refl

-- The worker done with the first page, and the result in its page.
abbrev worked : ScrollbackStorage
unfolding new add_rows add_row add_row_page maybe_enqueue_full_pages scan_pages visit worker_takes
    worker_sends compress_payload
worked = worker_sends verbatim (worker_takes three)

abbrev polled : ScrollbackStorage
unfolding new add_rows add_row add_row_page maybe_enqueue_full_pages scan_pages visit worker_takes
    worker_sends compress_payload poll_compression apply_available_completions apply_all
    apply_completion apply_pages retain_recycled_rows
polled = poll_compression worked

abbrev line_of : Option (ScrollbackStorage × Option Line) → Option Line
line_of none = none
line_of (some (s, line)) = line

-- The second line is read out of a block.
read_cold_line :
    line_of (read_line_with_combining verbatim 1 1 polled)
    ≡ some (letter 66 ∷ default_cell ∷ [], [])
unfolding new add_rows add_row add_row_page maybe_enqueue_full_pages scan_pages visit worker_takes
    worker_sends compress_payload poll_compression apply_available_completions apply_all
    apply_completion apply_pages retain_recycled_rows read_line_with_combining read_at locate
    fill_cache decode_page decode_block decode_sparse take_u16 take_u32
read_cold_line = refl

-- The page of the line is with the worker: it is waited for, and the line is read out of a block.
read_line_in_flight :
    line_of (read_line_with_combining verbatim 2 1 three) ≡ some (letter 66 ∷ default_cell ∷ [], [])
unfolding new add_rows add_row add_row_page maybe_enqueue_full_pages scan_pages visit worker_takes
    worker_sends compress_payload poll_compression apply_available_completions apply_all
    apply_completion apply_pages retain_recycled_rows drain_compression drain_loop
    read_line_with_combining read_at locate fill_cache decode_page decode_block decode_sparse
    take_u16 take_u32
read_line_in_flight = refl

widths_of_lines : line_cols 2 three ≡ some 2
unfolding new add_rows add_row add_row_page maybe_enqueue_full_pages scan_pages visit worker_takes
    worker_sends compress_payload poll_compression apply_available_completions apply_all
    apply_completion apply_pages retain_recycled_rows line_cols locate
widths_of_lines = refl

abbrev count_of : Option (ScrollbackStorage × ℕ) → ℕ
count_of none = 0
count_of (some (s, n)) = n

-- All lines are visited, the cold and the hot ones.
fold_lines_visits : count_of (fold_lines verbatim (λ n l. n + length l) 1 0 polled) ≡ 6
unfolding new add_rows add_row add_row_page maybe_enqueue_full_pages scan_pages visit worker_takes
    worker_sends compress_payload poll_compression apply_available_completions apply_all
    apply_completion apply_pages retain_recycled_rows fold_lines fold_pages fill_cache decode_page
    decode_block decode_sparse take_u16 take_u32
fold_lines_visits = refl

-- The wait for the worker ends with nothing queued.
drained : (or_fresh (drain_compression verbatim 2 three)).queued_jobs ≡ 0
unfolding new add_rows add_row add_row_page maybe_enqueue_full_pages scan_pages visit worker_takes
    worker_sends compress_payload poll_compression apply_available_completions apply_all
    apply_completion apply_pages retain_recycled_rows drain_compression drain_loop
drained = refl

fresh-IsTracked : IsTracked verbatim fresh
unfolding new
fresh-IsTracked = record {
  sound = record { stored = tt; counted = refl };
  distinct = tt;
  free = tt;
  below = tt;
  booked_once = tt;
  booked_below = tt;
}

three-IsTracked : IsTracked verbatim three
unfolding new add_rows add_row add_row_page maybe_enqueue_full_pages scan_pages visit
three-IsTracked = record {
  sound = record {
    stored = (
      record { within = omega arith; stored = refl },
      (record { within = omega arith; stored = refl }, tt),
    );
    counted = refl;
  };
  distinct = (refl, (refl, tt));
  free = ((λ h. cc), ((λ h. refl), tt));
  below = (omega arith, (omega arith, tt));
  booked_once = (refl, tt);
  booked_below = (omega arith, tt);
}

row-IsRow : (n : ℕ) → n < 256 → IsRow 2 (row n)
row-IsRow n h = record {
  wide = refl;
  long = refl;
  in_range =
      ((omega (arith, h), omega arith, omega arith), ((omega arith, omega arith, omega arith), tt));
  blank_before = refl;
  blank_behind = refl;
}

two_rows-IsPayload : IsPayload 2 (segmented (row 65 ∷ row 66 ∷ []))
two_rows-IsPayload =
    (omega arith, (row-IsRow 65 (omega arith), (row-IsRow 66 (omega arith), tt)), omega arith)

-- The worker with the job of the first page.
abbrev taken : ScrollbackStorage
unfolding new add_rows add_row add_row_page maybe_enqueue_full_pages scan_pages visit worker_takes
taken = worker_takes three

taken-IsTracked : IsTracked verbatim taken
unfolding new add_rows add_row add_row_page maybe_enqueue_full_pages scan_pages visit worker_takes
taken-IsTracked =
    let v = three-IsTracked in
    record {
      sound = record { stored = v.sound.stored; counted = refl };
      distinct = v.distinct;
      free = v.free;
      below = v.below;
      booked_once = v.booked_once;
      booked_below = v.booked_below;
    }

abbrev first_job : Job
first_job = record {
  page_id = 1;
  generation = 0;
  cols = 2;
  payload = segmented (row 65 ∷ row 66 ∷ []);
}

taken-Fits : (j : Job) → taken.in_hand ≡ some j → Fits j taken.history
unfolding new add_rows add_row add_row_page maybe_enqueue_full_pages scan_pages visit worker_takes
taken-Fits j e =
    let e' : first_job ≡ j = cc in
    subst (λ (j : Job). Fits j taken.history) e'
      ((λ _ _. (refl, two_rows-IsPayload)), ((λ h. absurd (omega (arith, h))), tt))

worked-IsTracked : IsTracked verbatim worked
unfolding new add_rows add_row add_row_page maybe_enqueue_full_pages scan_pages visit worker_takes
    worker_sends compress_payload
worked-IsTracked =
    (worker_sends-Tracks verbatim verbatim-IsLossless taken taken-IsTracked taken-Fits).tracked

worker_sends-Tracks_example : Tracks verbatim taken (worker_sends verbatim taken)
worker_sends-Tracks_example =
    worker_sends-Tracks verbatim verbatim-IsLossless taken taken-IsTracked taken-Fits

poll_compression-Polls_example : Polls verbatim worked (poll_compression worked)
poll_compression-Polls_example = poll_compression-Polls verbatim worked worked-IsTracked

polled-IsStorage : IsStorage verbatim (poll_compression worked)
polled-IsStorage = (poll_compression-Polls verbatim worked worked-IsTracked).tracks.tracked.sound

polled-AllHere : AllHere (poll_compression worked).history
unfolding new add_rows add_row add_row_page maybe_enqueue_full_pages scan_pages visit worker_takes
    worker_sends compress_payload poll_compression apply_available_completions apply_all
    apply_completion apply_pages retain_recycled_rows
polled-AllHere = (refl, (refl, tt))

truncate_lines-take_example :
    IsStorage verbatim (truncate_lines verbatim 1 (poll_compression worked))
    × (lines verbatim (truncate_lines verbatim 1 (poll_compression worked))
        ≡ take 1 (lines verbatim (poll_compression worked)))
truncate_lines-take_example =
    truncate_lines-take verbatim 1 (poll_compression worked) polled-IsStorage polled-AllHere

-- A page of two rows.
abbrev page_of_two : Page
page_of_two = record {
  id = 1;
  generation = 0;
  lines = 2;
  empty_lines = 0;
  cols = 2;
  capacity_lines = 2;
  resident = none;
  compressed = none;
  sparse = false;
  pending = true;
  combining = [];
}

packed-IsPage_example :
    IsPage verbatim (landing verbatim page_of_two (segmented (row 65 ∷ row 66 ∷ [])))
    × (page_rows verbatim (landing verbatim page_of_two (segmented (row 65 ∷ row 66 ∷ [])))
        ≡ (letter 65 ∷ default_cell ∷ []) ∷ (letter 66 ∷ default_cell ∷ []) ∷ [])
packed-IsPage_example =
    packed-IsPage verbatim verbatim-IsLossless page_of_two (segmented (row 65 ∷ row 66 ∷ []))
      (omega arith) refl two_rows-IsPayload

ingest_owned_rows_with_bounds-Appends_example :
    let s' = ingest_owned_rows_with_bounds verbatim three_rows fresh in
    IsTracked verbatim s'
    × (lines verbatim s' ≡ drop (0 + 3 - length (lines verbatim s')) (cells_of_rows three_rows))
    × ((length (lines verbatim s') ≡ 3)
        ⊎ (IsBlocked verbatim s'.history × (4 < length (lines verbatim s'))))
unfolding new
ingest_owned_rows_with_bounds-Appends_example =
    ingest_owned_rows_with_bounds-Appends verbatim three_rows fresh fresh-IsTracked
      (omega arith, (omega arith, (omega arith, tt))) (omega arith)
