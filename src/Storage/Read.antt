-- ===== src/Storage/Read.antt =====
-- Reading: `line_cols`, `read_line_with_combining` and `fold_lines` of
-- crates/mr-crabs-terminal/src/storage.rs. The fuel is that of `drain_compression`, which waits for
-- lines that a job carries.
use mr_crabs.Common.{
  ◌+◌, ◌&&◌, ◌||◌, not, ℕ, ◌-◌, ◌*◌, Bool, true, false, not, ◌||◌, Option, some, none, List, [],
  ◌∷◌, take, drop, get_elem?, ltb, ◌==◌, if◌then◌else◌, ◌>>=◌,
}
use mr_crabs.Grid.{Cell}
use mr_crabs.Storage.{
  is_some, Extras, RowDesc, Resident, flat, segmented, Page, ColdReadCache, ScrollbackStorage, rows,
}
use mr_crabs.Storage.Compress.{drain_compression}
use mr_crabs.Storage.Codec.{Lz4, decode_page}

-- The index of the page with the line, the page, and the place of the line in it.
unfoldable pub locate : ℕ → ℕ → List Page → Option (ℕ × Page × ℕ)
locate k i [] = none
locate k i (p ∷ ps) =
    let rest = locate (k + 1) (i - p.lines) ps in if ltb i p.lines then some (k, p, i) else rest

-- A page on its way through the worker.
abbrev pub is_in_flight : Page → Bool
is_in_flight p = p.pending && not (is_some p.resident) && not (is_some p.compressed)

abbrev pub any_in_flight : List Page → Bool
any_in_flight [] = false
any_in_flight (p ∷ ps) = is_in_flight p || any_in_flight ps

abbrev pub cols_at : ℕ → Page → Option Resident → Option ℕ
cols_at i p (some (segmented ds)) = get_elem? ds i >>= λ d. some d.cols
cols_at i p r = some p.cols

unfoldable pub line_cols : ℕ → ScrollbackStorage → Option ℕ
unfolding locate
line_cols i s = locate 0 i s.history >>= λ at. cols_at at.2 at.1 at.1.resident

-- A line and its combining marks.
abbrev pub Line : Type 0
Line = List Cell × List (ℕ × List ℕ)

abbrev pub marks : Extras → List (ℕ × List ℕ)
marks none = []
marks (some extras) = extras

abbrev pub page_extras : ℕ → List Extras → List (ℕ × List ℕ)
page_extras i all = elim (get_elem? all i) [ none ↦ [] | some extras ↦ marks extras ]

abbrev pub line_slice : ℕ → ℕ → List Cell → List Cell
line_slice cols i buf = take cols (drop (i * cols) buf)

-- `u64::MAX`, which is no page's id.
abbrev pub no_page : ℕ
no_page = 18446744073709551615

abbrev pub empty_cache : ColdReadCache
empty_cache = record { page_id = 0; generation = 0; cells = []; extras = [] }

abbrev pub cache_or_empty : Option ColdReadCache → ColdReadCache
cache_or_empty none = empty_cache
cache_or_empty (some cache) = cache

module _ (lz4 : Lz4) where
  abbrev pub refill : Page → ColdReadCache → Option (List Cell) → ColdReadCache × Bool
  refill p cache none = (record cache { page_id = no_page }, false)
  refill p cache (some cells) = (
    record { page_id = p.id; generation = p.generation; cells = cells; extras = p.combining },
    true,
  )

  -- The cache with the cells of a cold page, and whether they could be had.
  unfoldable pub fill_cache : Page → ColdReadCache → ColdReadCache × Bool
  fill_cache p cache =
      if not (cache.page_id == p.id) || not (cache.generation == p.generation)
      then refill p cache (decode_page lz4 p)
      else (cache, true)

  -- A line of a page: the cache after it, and the line if it can be read.
  abbrev pub read_cold : ℕ → Page → ColdReadCache × Bool → Option ColdReadCache × Option Line
  read_cold i p (cache, false) = (some cache, none)
  read_cold i p (cache, true) =
      (some cache, some (line_slice p.cols i cache.cells, page_extras i cache.extras))

  abbrev pub read_page :
      ℕ → Page → Option Resident → Option ColdReadCache → Option ColdReadCache × Option Line
  unfolding fill_cache
  read_page i p (some (flat buf)) cache =
      (cache, some (line_slice p.cols i buf, page_extras i p.combining))
  read_page i p (some (segmented ds)) cache =
      (cache, get_elem? ds i >>= λ d. some (d.cells, marks d.combining))
  read_page i p none cache = elim p.compressed [
    | none ↦ (cache, none)
    | some _ ↦ read_cold i p (fill_cache p (cache_or_empty cache))
  ]

  unfoldable pub read_at : ℕ → ℕ → ScrollbackStorage → ScrollbackStorage × Option Line
  unfolding fill_cache
  read_at k i s = elim (get_elem? s.history k) [
    | none ↦ (s, none)
    | some p ↦
        let (cache, line) = read_page i p p.resident s.cold_cache in
        (record s { cold_cache = cache }, line)
  ]

  unfoldable pub read_line_with_combining :
      ℕ → ℕ → ScrollbackStorage → Option (ScrollbackStorage × Option Line)
  unfolding locate read_at
  read_line_with_combining fuel i s = elim (locate 0 i s.history) [
    | none ↦ some (s, none)
    | some at ↦
        let drained = drain_compression lz4 fuel s in
        (if is_in_flight at.1 then drained else some s) >>= λ s'. some (read_at at.0 at.2 s')
  ]

  module _ {A : Type 0} (fold : A → List Cell → A) where
    abbrev pub fold_each : List (List Cell) → A → A
    fold_each [] acc = acc
    fold_each (l ∷ ls) acc = fold_each ls (fold acc l)

    abbrev pub fold_descs : List RowDesc → A → A
    fold_descs [] acc = acc
    fold_descs (d ∷ ds) acc = fold_descs ds (fold acc d.cells)

    abbrev pub fold_cold : Page → ColdReadCache × Bool → A → A × Option ColdReadCache
    fold_cold p (cache, false) acc = (acc, some cache)
    fold_cold p (cache, true) acc = (fold_each (rows p.cols p.lines cache.cells) acc, some cache)

    abbrev pub fold_page :
        Page → Option Resident → A → Option ColdReadCache → A × Option ColdReadCache
    unfolding fill_cache
    fold_page p (some (segmented ds)) acc cache = (fold_descs ds acc, cache)
    fold_page p (some (flat buf)) acc cache = (fold_each (rows p.cols p.lines buf) acc, cache)
    fold_page p none acc cache = elim p.compressed [
      | none ↦ (acc, cache)
      | some _ ↦ fold_cold p (fill_cache p (cache_or_empty cache)) acc
    ]

    unfoldable pub fold_pages : List Page → A → Option ColdReadCache → A × Option ColdReadCache
    unfolding fill_cache
    fold_pages [] acc cache = (acc, cache)
    fold_pages (p ∷ ps) acc cache =
        let (acc', cache') = fold_page p p.resident acc cache in fold_pages ps acc' cache'

    unfoldable pub fold_lines : ℕ → A → ScrollbackStorage → Option (ScrollbackStorage × A)
    unfolding fold_pages
    fold_lines fuel init s =
        let drained = drain_compression lz4 fuel s in
        (if any_in_flight s.history then drained else some s) >>= λ s'.
        let (acc, cache) = fold_pages s'.history init s'.cold_cache in
        some (record s' { cold_cache = cache }, acc)
