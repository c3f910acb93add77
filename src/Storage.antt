-- ===== src/Storage.antt =====
-- The paged scrollback: crates/mr-crabs-terminal/src/storage.rs. This file has its types. The
-- history is a list of pages, the oldest first; an `Arc` is its value. The two channels are the
-- lists of what they hold, and `in_hand` is the job that the worker has taken and not finished.
-- The pool that shares equal compressed blocks and the scratch buffers are left out. A slice out of
-- range, which panics in the code, is shorter here; valid pages ask for none.
mod Codec
mod Compress
mod Limit
mod Ingest
mod Read
mod Pages
mod Rows
mod Trimming
mod Bounded
mod Kept
mod Shortening
mod Truncation
mod Sparse
mod Frozen
mod Booking
mod Tracking
mod Enqueue
mod Visiting
mod Handing
mod Applying
mod Settled
mod Landing
mod Draining
mod Polling
mod Snoc
mod Growth
mod Tests
use mr_crabs.Common.{
  ℕ, zero, suc, ◌+◌, ◌-◌, ◌*◌, ◌≡◌, Bool, true, false, not, ◌&&◌, Option, some, none, List, [], ◌∷◌,
  map, take, drop, ◌==◌, if◌then◌else◌, max,
}
use mr_crabs.Grid.{Cell}

pub record ScrollbackConfig : Type 0 where
  pub max_lines : ℕ
  pub hot_page_lines : ℕ
  pub max_queued_jobs : ℕ
  pub max_pending_completions : ℕ

-- `ScrollbackConfig::default`.
abbrev pub default_config : ScrollbackConfig
default_config = record {
  max_lines = 100000;
  hot_page_lines = 512;
  max_queued_jobs = 16;
  max_pending_completions = 16;
}

abbrev pub max_recycled_rows : ℕ
max_recycled_rows = 1024

-- The combining marks of a line, each list with its column; `none` if the line has none.
abbrev pub Extras : Type 0
Extras = Option (List (ℕ × List ℕ))

pub record RowDesc : Type 0 where
  pub cells : List Cell
  pub cols : ℕ
  pub occupancy : ℕ
  pub first_occupied : ℕ
  pub wrapped : Bool
  pub combining : Extras

-- Also what a job carries, `JobPayload`.
pub data Resident : Type 0 where
  flat : List Cell → Resident
  segmented : List RowDesc → Resident

pub record Job : Type 0 where
  pub page_id : ℕ
  pub generation : ℕ
  pub cols : ℕ
  pub payload : Resident

pub record Completion : Type 0 where
  pub page_id : ℕ
  pub generation : ℕ
  pub compressed : List ℕ
  pub recycled_rows : List (List Cell)
  pub sparse : Bool

pub record Page : Type 0 where
  pub id : ℕ
  pub generation : ℕ
  pub lines : ℕ
  pub empty_lines : ℕ
  pub cols : ℕ
  pub capacity_lines : ℕ
  pub resident : Option Resident
  pub compressed : Option (List ℕ)
  pub sparse : Bool
  pub pending : Bool
  pub combining : List Extras

-- The page that was decoded last, for reading.
pub record ColdReadCache : Type 0 where
  pub page_id : ℕ
  pub generation : ℕ
  pub cells : List Cell
  pub extras : List Extras

pub record ScrollbackStorage : Type 0 where
  pub config : ScrollbackConfig
  pub cols : ℕ
  pub history : List Page
  pub logical_lines : ℕ
  pub next_page_id : ℕ
  pub enqueue_cursor : ℕ
  pub cold_cache : Option ColdReadCache
  pub recycled_rows : List (List Cell)
  -- The channels with their capacities, and the worker.
  pub jobs : List Job
  pub job_capacity : ℕ
  pub in_hand : Option Job
  pub completions : List Completion
  pub completion_capacity : ℕ
  pub queued_jobs : ℕ
  pub pending_completions : ℕ
  pub restored_pages : ℕ
  pub stale_discarded : ℕ

pub new : ℕ → ScrollbackConfig → ScrollbackStorage
new cols config = record {
  config = config;
  cols = cols;
  history = [];
  logical_lines = 0;
  next_page_id = 1;
  enqueue_cursor = 0;
  cold_cache = none;
  recycled_rows = [];
  jobs = [];
  job_capacity = max config.max_queued_jobs 1;
  in_hand = none;
  completions = [];
  completion_capacity = max config.max_pending_completions 1;
  queued_jobs = 0;
  pending_completions = 0;
  restored_pages = 0;
  stale_discarded = 0;
}

abbrev pub is_some {ℓ} : {A : Type ℓ} → Option A → Bool
is_some none = false
is_some (some a) = true

abbrev pub is_flat : Option Resident → Bool
is_flat (some (flat cells)) = true
is_flat _ = false

abbrev pub is_segmented : Option Resident → Bool
is_segmented (some (segmented descs)) = true
is_segmented _ = false

abbrev pub is_cold : Page → Bool
is_cold p = is_some p.compressed && not (is_some p.resident)

abbrev pub is_hot : Page → Bool
is_hot p = is_some p.resident

abbrev pub is_default : Cell → Bool
is_default c = (c.content == 32) && (c.style == 0) && (c.flags == 0)

-- `cells.iter().all(Cell::is_default)`.
abbrev pub all_default : List Cell → Bool
all_default [] = true
all_default (c ∷ cs) = is_default c && all_default cs

-- The lines `buf[line * cols..line * cols + cols]` of a buffer.
abbrev pub rows : ℕ → ℕ → List Cell → List (List Cell)
rows cols zero buf = []
rows cols (suc n) buf = take cols buf ∷ rows cols n (drop cols buf)

-- How many of the lines are blank.
abbrev pub count_blank : List (List Cell) → ℕ
count_blank [] = 0
count_blank (l ∷ ls) = if all_default l then 1 + count_blank ls else count_blank ls

-- `row.occupancy == 0 && !row.wrapped`.
abbrev pub is_empty_row : RowDesc → Bool
is_empty_row d = (d.occupancy == 0) && not d.wrapped

abbrev pub count_empty : List RowDesc → ℕ
count_empty [] = 0
count_empty (d ∷ ds) = if is_empty_row d then 1 + count_empty ds else count_empty ds

-- A `VecDeque` from its back.
abbrev pub unsnoc {ℓ} : {A : Type ℓ} → List A → Option (List A × A)
unsnoc [] = none
unsnoc (x ∷ xs) = elim (unsnoc xs) [
  | none ↦ some ([], x)
  | some (front, back) ↦ some (x ∷ front, back)
]
