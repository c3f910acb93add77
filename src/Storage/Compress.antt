-- ===== src/Storage/Compress.antt =====
-- Compression beside the history: `maybe_enqueue_full_pages`, `enqueue_page`, `worker_loop`,
-- `apply_completion` and the loops round them, of crates/mr-crabs-terminal/src/storage.rs. The worker
-- is two steps: it takes a job, and it sends what it made of it when there is room.
use mr_crabs.Common.{
  ℕ, zero, suc, ◌+◌, ◌-◌, Bool, true, false, not, ◌&&◌, Option, some, none, List, [], ◌∷◌, ◌++◌,
  map, take, length, get_elem?, set_elem, ltb, leb, ◌==◌, if◌then◌else◌, min, ◌>>=◌,
}
use mr_crabs.Grid.{Cell}
use mr_crabs.Storage.{
  Resident, flat, segmented, Job, Completion, Page, ScrollbackStorage, is_hot, is_some,
  max_recycled_rows,
}
use mr_crabs.Storage.Codec.{Lz4, compress_payload}

-- The marks of a page of rows, kept beside it.
abbrev pub freeze_page_combining : Page → Page
freeze_page_combining p = elim p.resident [
  | some r ↦ elim r [
    | segmented ds ↦ record p { combining = map (λ d. d.combining) ds }
    | flat cells ↦ p
  ]
  | none ↦ p
]

abbrev pub store : ℕ → Page → ScrollbackStorage → ScrollbackStorage
store i p s = record s { history = set_elem i p s.history }

abbrev pub job_of : Page → Resident → Job
job_of p r = record { page_id = p.id; generation = p.generation; cols = p.cols; payload = r }

-- The page hands its lines to a job if the queue takes one, and keeps them otherwise.
abbrev pub enqueue_resident :
    ℕ → Page → Option Resident → ScrollbackStorage → ScrollbackStorage × Bool
enqueue_resident i p none s = (store i p s, false)
enqueue_resident i p (some r) s =
    if ltb (length s.jobs) s.job_capacity
    then (
      record (store i (record p { resident = none; pending = true }) s) {
        jobs = s.jobs ++ (job_of p r ∷ []);
        queued_jobs = s.queued_jobs + 1;
      },
      true,
    )
    else (store i (record p { pending = false }) s, false)

abbrev pub enqueue_found : ℕ → ScrollbackStorage → Option Page → ScrollbackStorage × Bool
enqueue_found i s none = (s, false)
enqueue_found i s (some p) =
    enqueue_resident i (freeze_page_combining p) (freeze_page_combining p).resident s

unfoldable pub enqueue_page : ℕ → ScrollbackStorage → ScrollbackStorage × Bool
enqueue_page i s = enqueue_found i s (get_elem? s.history i)

abbrev pub should_enqueue : Page → Bool
should_enqueue p =
    is_hot p && leb p.capacity_lines p.lines && not p.pending && not (is_some p.compressed)

-- The page is enqueued if it should be; the flag tells of a failure.
abbrev pub visit_found : ℕ → ScrollbackStorage → Option Page → ScrollbackStorage × Bool
visit_found i s none = (s, false)
visit_found i s (some p) =
    if should_enqueue p
    then ((enqueue_found i s (some p)).0, not (enqueue_found i s (some p)).1)
    else (s, false)

unfoldable pub visit : ℕ → ScrollbackStorage → ScrollbackStorage × Bool
visit i s = visit_found i s (get_elem? s.history i)

-- The first index that failed.
abbrev pub note_failure : Option ℕ → ℕ → Bool → Option ℕ
note_failure failed_at i false = failed_at
note_failure none i true = some i
note_failure (some at) i true = some (min at i)

-- `n` pages from index `i` on.
unfoldable pub scan_pages : ℕ → ℕ → Option ℕ → ScrollbackStorage → ScrollbackStorage × Option ℕ
scan_pages zero i failed_at s = (s, failed_at)
scan_pages (suc n) i failed_at s =
    let (s', failed) = visit i s in scan_pages n (i + 1) (note_failure failed_at i failed) s'

abbrev pub unwrap_or : Option ℕ → ℕ → ℕ
unwrap_or none n = n
unwrap_or (some m) n = m

unfoldable pub maybe_enqueue_full_pages : ScrollbackStorage → ScrollbackStorage
maybe_enqueue_full_pages s =
    let last = length s.history - 1 in
    let start = min s.enqueue_cursor last in
    let (s', failed_at) = scan_pages (last - start) start none s in
    if leb (length s.history) 1
    then record s { enqueue_cursor = 0 }
    else record s' { enqueue_cursor = unwrap_or failed_at last }

-- `recv` of the worker.
unfoldable pub worker_takes : ScrollbackStorage → ScrollbackStorage
worker_takes s = elim s.in_hand [
  | some job ↦ s
  | none ↦ elim s.jobs [ [] ↦ s | job ∷ jobs ↦ record s { in_hand = some job; jobs = jobs } ]
]

module _ (lz4 : Lz4) where
  abbrev pub completion_of : Job → Completion
  completion_of job =
      let made = compress_payload lz4 job.payload job.cols in
      record {
        page_id = job.page_id;
        generation = job.generation;
        compressed = made.0;
        sparse = made.1;
        recycled_rows = made.2;
      }

  -- `compress_payload` and `send` of the worker, which waits while there is no room.
  unfoldable pub worker_sends : ScrollbackStorage → ScrollbackStorage
  worker_sends s = elim s.in_hand [
    | none ↦ s
    | some job ↦
        if ltb (length s.completions) s.completion_capacity
        then record s {
          in_hand = none;
          completions = s.completions ++ (completion_of job ∷ []);
          pending_completions = s.pending_completions + 1;
          queued_jobs = s.queued_jobs - 1;
        }
        else s
  ]

-- A finished page, or one that has changed since and drops the result.
abbrev pub finish : Completion → Page → Page × Bool
finish c p =
    if p.generation == c.generation
    then (
      record p {
        compressed = some c.compressed;
        sparse = c.sparse;
        resident = none;
        pending = false;
      },
      true,
    )
    else (record p { pending = false }, false)

-- The first page with the id of the result, and whether it took it; `none` if there is no such page.
unfoldable pub apply_pages : Completion → List Page → Option (List Page × Bool)
apply_pages c [] = none
apply_pages c (p ∷ ps) =
    let rest = apply_pages c ps in
    if p.id == c.page_id
    then some ((finish c p).0 ∷ ps, (finish c p).1)
    else rest >>= λ r. some (p ∷ r.0, r.1)

unfoldable pub retain_recycled_rows : List (List Cell) → ScrollbackStorage → ScrollbackStorage
retain_recycled_rows rows s = record s {
  recycled_rows = s.recycled_rows ++ take (max_recycled_rows - length s.recycled_rows) rows;
}

abbrev pub take_result :
    Completion → ScrollbackStorage → Option (List Page × Bool) → ScrollbackStorage
take_result c s none = record s { stale_discarded = s.stale_discarded + 1 }
take_result c s (some (pages, false)) = record s {
  history = pages;
  stale_discarded = s.stale_discarded + 1;
}
take_result c s (some (pages, true)) =
    retain_recycled_rows c.recycled_rows (record s { history = pages })

unfoldable pub apply_completion : Completion → ScrollbackStorage → ScrollbackStorage
apply_completion c s =
    let s' = record s { pending_completions = s.pending_completions - 1 } in
    take_result c s' (apply_pages c s'.history)

-- `try_recv` until nothing is there: each result is taken out of the channel and applied.
unfoldable pub apply_all : List Completion → ScrollbackStorage → ScrollbackStorage
apply_all [] s = s
apply_all (c ∷ cs) s = apply_all cs (apply_completion c (record s { completions = cs }))

unfoldable pub apply_available_completions : ScrollbackStorage → ScrollbackStorage
apply_available_completions s = apply_all s.completions s

unfoldable pub poll_compression : ScrollbackStorage → ScrollbackStorage
poll_compression s = maybe_enqueue_full_pages (apply_available_completions s)

module _ (lz4 : Lz4) where
  -- The loop of `drain_compression`, with the worker done with one job from poll to poll; `none`
  -- means that the fuel ran out.
  unfoldable pub drain_loop : ℕ → ScrollbackStorage → Option ScrollbackStorage
  unfolding apply_available_completions worker_sends worker_takes
  drain_loop zero s = none
  drain_loop (suc fuel) s =
      let rest =
        drain_loop fuel (worker_sends lz4 (worker_takes (apply_available_completions s))) in
      if s.queued_jobs == 0 then some s else rest

  unfoldable pub drain_compression : ℕ → ScrollbackStorage → Option ScrollbackStorage
  unfolding drain_loop poll_compression
  drain_compression fuel s = drain_loop fuel s >>= λ s'. some (poll_compression s')
