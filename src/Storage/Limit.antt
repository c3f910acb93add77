-- ===== src/Storage/Limit.antt =====
-- The bound on the lines: `trim_front_page`, `enforce_max_lines`, `truncate_lines`, `clear` and
-- `update_config` of crates/mr-crabs-terminal/src/storage.rs.
use mr_crabs.Common.{
  ℕ, suc, ◌-◌, ◌*◌, Bool, true, false, ◌||◌, Option, some, none, List, [], ◌∷◌, ◌++◌, take, drop,
  length, replicate, ltb, leb, ◌==◌, if◌then◌else◌, min, add_u64, ◌>>=◌,
}
use mr_crabs.Grid.{Cell}
use mr_crabs.Persist.Format.{default_cell}
use mr_crabs.Storage.{
  Resident, flat, segmented, Page, ScrollbackConfig, ScrollbackStorage, rows, count_blank,
  count_empty,
}
use mr_crabs.Storage.Codec.{Lz4, decode_page}

-- The loop of `enforce_max_lines` over the pages: those that are left, the count of their lines, how
-- many pages went, and whether the front page was cut, which ends the loop: it leaves the count at
-- the limit.
pub record Enforced : Type 0 where
  pub pages : List Page
  pub count : ℕ
  pub popped : ℕ
  pub trimmed : Bool

-- The loop of `truncate_lines`: the pages that are left, how many lines are still to go, and the
-- count of the lines.
pub record Truncated : Type 0 where
  pub pages : List Page
  pub left : ℕ
  pub count : ℕ

module _ (lz4 : Lz4) where
  -- A cold page made hot again; none if there is nothing to decode.
  unfoldable pub thaw : Page → Option Page
  thaw p = elim p.resident [
    | some r ↦ some p
    | none ↦ decode_page lz4 p >>= λ cells.
        some (record p { resident = some (flat cells); compressed = none; sparse = false })
  ]

  abbrev pub drop_rows : ℕ → Page → Option Resident → Option Page
  drop_rows n p none = none
  drop_rows n p (some (segmented ds)) = some (record p {
    resident = some (segmented (drop n ds));
    empty_lines = count_empty (drop n ds);
    lines = p.lines - n;
  })
  drop_rows n p (some (flat cells)) =
      let kept = p.lines - n in
      let cells' =
        take (kept * p.cols) (drop (n * p.cols) cells)
        ++ (replicate (n * p.cols) default_cell ++ drop (p.lines * p.cols) cells) in
      some (record p {
        resident = some (flat cells');
        empty_lines = count_blank (rows p.cols kept cells');
        combining = drop (min n (length p.combining)) p.combining;
        lines = kept;
      })

  -- `none` for `false`, which leaves the page as it was.
  unfoldable pub trim_page : ℕ → Page → Option Page
  trim_page n p =
      if (n == 0) || leb p.lines n
      then none
      else thaw p >>= λ p'. drop_rows n p' p'.resident >>= λ p''.
          some (record p'' { generation = add_u64 p''.generation 1; pending = false })

  abbrev pub trim_front_page : ℕ → ℕ → Page → List Page → Option Page → Enforced
  trim_front_page count excess p ps none = record {
    pages = p ∷ ps;
    count = count;
    popped = 0;
    trimmed = false;
  }
  trim_front_page count excess p ps (some p') = record {
    pages = p' ∷ ps;
    count = count - excess;
    popped = 0;
    trimmed = true;
  }

  unfoldable pub enforce_pages : ℕ → List Page → ℕ → Enforced
  enforce_pages limit [] count = record { pages = []; count = count; popped = 0; trimmed = false }
  enforce_pages limit (p ∷ ps) count =
      let popping = enforce_pages limit ps (count - p.lines) in
      if ltb limit count
      then if leb p.lines (count - limit)
        then record popping { popped = suc popping.popped }
        else trim_front_page count (count - limit) p ps (trim_page (count - limit) p)
      else record { pages = p ∷ ps; count = count; popped = 0; trimmed = false }

  unfoldable pub enforce_max_lines : ScrollbackStorage → ScrollbackStorage
  enforce_max_lines s =
      let e = enforce_pages s.config.max_lines s.history s.logical_lines in
      record s {
        history = e.pages;
        logical_lines = e.count;
        enqueue_cursor = s.enqueue_cursor - e.popped;
        cold_cache = if e.trimmed then none else s.cold_cache;
      }

  unfoldable pub update_config : ScrollbackConfig → ScrollbackStorage → ScrollbackStorage
  unfolding enforce_max_lines
  update_config next s = enforce_max_lines (record s {
    config = record s.config { max_lines = next.max_lines; hot_page_lines = next.hot_page_lines };
  })

  -- The newest page cut to its first `kept` lines. A page that is neither hot nor decodable goes.
  abbrev pub keep_rows : ℕ → Page → Option Resident → Option Page
  keep_rows n p none = none
  keep_rows n p (some (segmented ds)) =
      let kept = take (length ds - n) ds in
      some (record p {
        resident = some (segmented kept);
        lines = length ds - n;
        empty_lines = count_empty kept;
      })
  keep_rows n p (some (flat cells)) = some (record p {
    lines = p.lines - n;
    empty_lines = count_blank (rows p.cols (p.lines - n) cells);
  })

  -- A cold page is restored_page first, with a new generation.
  abbrev pub restore_with : Page → Option (List Cell) → Page
  restore_with p none = p
  restore_with p (some cells) = record p {
    resident = some (flat cells);
    compressed = none;
    sparse = false;
    pending = false;
    generation = add_u64 p.generation 1;
  }

  abbrev pub restored_page : Page → Page
  restored_page p = elim p.resident [ some r ↦ p | none ↦ restore_with p (decode_page lz4 p) ]

  abbrev pub drop_back : ℕ → Page → ℕ → Truncated
  drop_back n p count = record { pages = []; left = n - p.lines; count = count - p.lines }

  abbrev pub keep_back : ℕ → ℕ → Page → ℕ → Option Page → Truncated
  keep_back keep n p count none = drop_back n p count
  keep_back keep n p count (some p') = record { pages = p' ∷ []; left = 0; count = keep }

  -- One round on the newest page, with lines to go.
  unfoldable pub cut_back : ℕ → ℕ → Page → ℕ → Truncated
  cut_back keep n p count =
      if leb p.lines n
      then drop_back n p count
      else keep_back keep n p count (keep_rows n (restored_page p) (restored_page p).resident)

  abbrev pub cut_next : ℕ → Page → Truncated → Truncated
  cut_next keep p t =
      if t.left == 0 then record t { pages = p ∷ t.pages } else cut_back keep t.left p t.count

  -- A page is reached when all behind it are gone.
  unfoldable pub truncate_pages : ℕ → ℕ → List Page → ℕ → Truncated
  truncate_pages keep n [] count = record { pages = []; left = n; count = count }
  truncate_pages keep n (p ∷ ps) count = cut_next keep p (truncate_pages keep n ps count)

  unfoldable pub truncate_lines : ℕ → ScrollbackStorage → ScrollbackStorage
  truncate_lines keep s =
      let t = truncate_pages keep (s.logical_lines - keep) s.history s.logical_lines in
      if leb s.logical_lines keep
      then s
      else record s { history = t.pages; logical_lines = t.count; cold_cache = none }

abbrev pub clear : ScrollbackStorage → ScrollbackStorage
clear s = record s { history = []; logical_lines = 0; cold_cache = none }
