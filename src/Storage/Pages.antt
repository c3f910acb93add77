-- ===== src/Storage/Pages.antt =====
-- What the pages of crates/mr-crabs-terminal/src/storage.rs stand for: lines, in order, wherever a
-- page has them, in its buffer, in its rows, in its block or on the way through the worker.
use mr_crabs.Common.{
  ℕ, ◌*◌, ◌≤◌, ◌≡◌, Bool, not, ◌&&◌, Option, some, none, List, [], ◌∷◌, ◌++◌, map, length, ◌==◌,
  if◌then◌else◌,
}
use mr_crabs.Grid.{Cell}
use mr_crabs.Storage.{
  Resident, flat, segmented, Job, Completion, Page, ScrollbackStorage, rows, is_some,
}
use mr_crabs.Storage.Codec.{Lz4, decode_page}

-- What is on its way through the channels, the next result first.
pub data Cargo : Type 0 where
  waiting : Resident → Cargo
  packed : List ℕ → Bool → Cargo

pub record Flight : Type 0 where
  pub page_id : ℕ
  pub generation : ℕ
  pub cargo : Cargo

abbrev pub job_flight : Job → Flight
job_flight j = record { page_id = j.page_id; generation = j.generation; cargo = waiting j.payload }

abbrev pub done_flight : Completion → Flight
done_flight c = record {
  page_id = c.page_id;
  generation = c.generation;
  cargo = packed c.compressed c.sparse;
}

abbrev pub held : Option Job → List Flight
held none = []
held (some j) = job_flight j ∷ []

abbrev pub flights : ScrollbackStorage → List Flight
flights s = map done_flight s.completions ++ (held s.in_hand ++ map job_flight s.jobs)

-- The flight of a page, if there is one.
abbrev pub find : ℕ → ℕ → List Flight → Option Flight
find id generation [] = none
find id generation (f ∷ fs) =
    let rest = find id generation fs in
    if (f.page_id == id) && (f.generation == generation) then some f else rest

abbrev pub land : Cargo → Page → Page
land (waiting r) p = record p { resident = some r }
land (packed bytes sparse) p = record p {
  compressed = some bytes;
  sparse = sparse;
  resident = none;
}

-- Neither hot nor cold.
abbrev pub is_away : Page → Bool
is_away p = not (is_some p.resident) && not (is_some p.compressed)

abbrev pub resident_rows : Page → Resident → List (List Cell)
resident_rows p (flat cells) = rows p.cols p.lines cells
resident_rows p (segmented ds) = map (λ d. d.cells) ds

abbrev pub decoded_rows : Page → Option (List Cell) → List (List Cell)
decoded_rows p none = []
decoded_rows p (some cells) = rows p.cols p.lines cells

-- The room of a buffer, and as many rows as the page has lines.
abbrev pub IsFilled : Page → Resident → Type 0
IsFilled p (flat cells) = length cells ≡ p.capacity_lines * p.cols
IsFilled p (segmented ds) = length ds ≡ p.lines

module _ (lz4 : Lz4) where
  abbrev pub rows_at : Page → Option Resident → List (List Cell)
  rows_at p (some r) = resident_rows p r
  rows_at p none = decoded_rows p (decode_page lz4 p)

  -- The lines of a page at hand.
  abbrev pub page_rows : Page → List (List Cell)
  page_rows p = rows_at p p.resident

  abbrev pub IsStored : Page → Option Resident → Type 0
  IsStored p (some r) = IsFilled p r
  IsStored p none =
      (cells : List Cell) × (decode_page lz4 p ≡ some cells)
      × (length cells ≡ p.capacity_lines * p.cols)

  -- A page at hand that is not corrupt.
  pub record IsPage (p : Page) : Type 0 where
    pub within : p.lines ≤ p.capacity_lines
    pub stored : IsStored p p.resident

  abbrev pub landed : Page → Option Flight → Option Page
  landed p none = none
  landed p (some f) = some (land f.cargo p)

  -- The page at hand, or as it will be when its flight lands.
  abbrev pub settled : List Flight → Page → Option Page
  settled fs p = if is_away p then landed p (find p.id p.generation fs) else some p

  abbrev pub rows_of : Option Page → List (List Cell)
  rows_of none = []
  rows_of (some p) = page_rows p

  abbrev pub content : List Flight → Page → List (List Cell)
  content fs p = rows_of (settled fs p)

  -- All the lines, the oldest first.
  abbrev pub view : List Flight → List Page → List (List Cell)
  view fs [] = []
  view fs (p ∷ ps) = content fs p ++ view fs ps

  abbrev pub IsSettled : Option Page → Type 0
  IsSettled none = ⊥
  IsSettled (some p) = IsPage p

  abbrev pub AllStored : List Flight → List Page → Type 0
  AllStored fs [] = Unit
  AllStored fs (p ∷ ps) = IsSettled (settled fs p) × AllStored fs ps

  -- All the lines of a storage.
  abbrev pub lines : ScrollbackStorage → List (List Cell)
  lines s = view (flights s) s.history

  -- No page is lost or corrupt, and the lines are counted.
  pub record IsStorage (s : ScrollbackStorage) : Type 0 where
    pub stored : AllStored (flights s) s.history
    pub counted : s.logical_lines ≡ length (lines s)
