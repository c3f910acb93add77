-- ===== src/Storage/Settled.antt =====
-- The worker and its results: `worker_loop` and `apply_completion` of
-- crates/mr-crabs-terminal/src/storage.rs change no line.
use mr_crabs.Common.{
  ℕ, ◌+◌, ◌-◌, ◌≡◌, refl, ap, ap₂, sym, subst, ◌∙◌, Bool, true, false, ◌&&◌, Option, some, none,
  List, [], ◌∷◌, ◌++◌, map, length, contains, Distinct, ltb, ◌==◌, if◌then◌else◌, inl, inr,
  Bool-cases, append_assoc, arith,
}
use mr_crabs.Storage.{Resident, flat, segmented, Job, Page, ScrollbackStorage}
use mr_crabs.Storage.Codec.{Lz4, IsLossless, compress_payload}
use mr_crabs.Storage.Compress.{worker_sends, completion_of}
use mr_crabs.Storage.Pages.{
  Flight, Cargo, waiting, packed, land, job_flight, done_flight, IsFilled, IsPage, IsSettled,
  AllStored, find, is_away, landed, page_rows, resident_rows, rows_of, settled, content, view,
  flights, lines,
}
use mr_crabs.Storage.Frozen.{packed-IsPage}
use mr_crabs.Storage.Sparse.{IsPayload}
use mr_crabs.Storage.Booking.{AllBelow, AllFree, IsTracked, booked}
use mr_crabs.Storage.Tracking.{Tracks, map-append, stays}

-- A flight is found before it is packed as after.
data Found (f : Flight) (c : Cargo) : Option Flight → Option Flight → ℕ → ℕ → Type 0 where
  same : {id g : ℕ} (o : Option Flight) → Found f c o o id g
  itself :
      {id g : ℕ}
      → f.page_id ≡ id
      → f.generation ≡ g
      → Found f c (some f) (some (record f { cargo = c })) id g

find-repack :
    (id g : ℕ) (f : Flight) (c : Cargo) (xs ys : List Flight)
    → Found f c (find id g (xs ++ (f ∷ ys))) (find id g (xs ++ (record f { cargo = c } ∷ ys))) id g
find-repack id g f c [] ys = elim (Bool-cases ((f.page_id == id) && (f.generation == g))) [
  | inl hit ↦ rw hit (itself (ground (arith, hit)) (ground (arith, hit)))
  | inr miss ↦ rw miss (same _)
]
find-repack id g f c (x ∷ xs) ys = elim (Bool-cases ((x.page_id == id) && (x.generation == g))) [
  | inl hit ↦ rw hit (same _)
  | inr miss ↦ rw miss (find-repack id g f c xs ys)
]

-- The pages for which a job was made have its width, and lines that can be packed.
abbrev pub Fits : Job → List Page → Type 0
Fits j [] = Unit
Fits j (p ∷ ps) =
    (j.page_id ≡ p.id
      → j.generation ≡ p.generation
      → (j.cols ≡ p.cols) × IsPayload p.cols j.payload)
    × Fits j ps

refit : (p : Page) (r : Resident) → IsFilled (record p { resident = some r }) r → IsFilled p r
refit p (flat cells) h = h
refit p (segmented ds) h = h

same_rows :
    (p : Page) (r : Resident) → resident_rows p r ≡ resident_rows (record p { resident = some r }) r
same_rows p (flat cells) = refl
same_rows p (segmented ds) = refl

module _ (lz4 : Lz4) (sound : IsLossless lz4) where
  -- A page whose job is done has the lines that it had.
  landed-packed :
      (p : Page) (j : Job)
      → j.cols ≡ p.cols
      → IsPayload p.cols j.payload
      → IsPage lz4 (land (waiting j.payload) p)
      → let done = done_flight (completion_of lz4 j) in
        IsPage lz4 (land done.cargo p)
        × (page_rows lz4 (land done.cargo p) ≡ page_rows lz4 (land (waiting j.payload) p))
  landed-packed p j wide payload v =
      let (page, rows) =
        packed-IsPage lz4 sound p j.payload v.within (refit p j.payload v.stored) payload in
      subst
        (λ w.
          IsPage lz4 (
            land (packed (compress_payload lz4 j.payload w).0 (compress_payload lz4 j.payload w).1)
              p)
          × (page_rows lz4 (
                land
                  (packed (compress_payload lz4 j.payload w).0 (compress_payload lz4 j.payload w).1)
                  p)
              ≡ page_rows lz4 (land (waiting j.payload) p)))
        (sym wide) (page, rows ∙ same_rows p j.payload)

  module _ (j : Job) (xs ys : List Flight) where
    abbrev before : List Flight
    before = xs ++ (job_flight j ∷ ys)

    abbrev after : List Flight
    after = xs ++ (done_flight (completion_of lz4 j) ∷ ys)

    settled-repack :
        (p : Page)
        → (j.page_id ≡ p.id
            → j.generation ≡ p.generation
            → (j.cols ≡ p.cols) × IsPayload p.cols j.payload)
        → IsSettled lz4 (settled lz4 before p)
        → IsSettled lz4 (settled lz4 after p) × (content lz4 after p ≡ content lz4 before p)
    settled-repack p fits v =
        at (is_away p) _ _
          (find-repack p.id p.generation (job_flight j) (done_flight (completion_of lz4 j)).cargo xs
            ys)
          v
      where
        at :
            (away : Bool) (o o' : Option Flight)
            → Found (job_flight j) (done_flight (completion_of lz4 j)).cargo o o' p.id p.generation
            → IsSettled lz4 (if away then landed lz4 p o else some p)
            → IsSettled lz4 (if away then landed lz4 p o' else some p)
              × (rows_of lz4 (if away then landed lz4 p o' else some p)
                  ≡ rows_of lz4 (if away then landed lz4 p o else some p))
        at false o o' f v = (v, refl)
        at true o _ (same _) v = (v, refl)
        at true _ _ (itself e h) v = let (w, payload) = fits e h in landed-packed p j w payload v

    view-repack :
        (ps : List Page)
        → Fits j ps
        → AllStored lz4 before ps
        → AllStored lz4 after ps × (view lz4 after ps ≡ view lz4 before ps)
    view-repack [] f v = (tt, refl)
    view-repack (p ∷ ps) f v =
        let (settles, rows) = settled-repack p f.0 v.0 in
        let (rest, more) = view-repack ps f.1 v.1 in
        ((settles, rest), ap₂ (λ ls ms. ls ++ ms) rows more)

  booked-repack : (j : Job) (xs ys : List Flight) → booked (after j xs ys) ≡ booked (before j xs ys)
  booked-repack j [] ys = refl
  booked-repack j (x ∷ xs) ys = ap (λ js. x.page_id ∷ js) (booked-repack j xs ys)

  AllFree-booked :
      (fs gs : List Flight) (ps : List Page) → booked gs ≡ booked fs → AllFree fs ps → AllFree gs ps
  AllFree-booked fs gs [] e f = tt
  AllFree-booked fs gs (p ∷ ps) e f =
      (λ hand. ap (λ js. contains js p.id) e ∙ f.0 hand, AllFree-booked fs gs ps e f.1)

  -- The state when the worker has sent the result of a job.
  abbrev sent : Job → ScrollbackStorage → ScrollbackStorage
  sent j s = record s {
    in_hand = none;
    completions = s.completions ++ (completion_of lz4 j ∷ []);
    pending_completions = s.pending_completions + 1;
    queued_jobs = s.queued_jobs - 1;
  }

  flights-sent :
      (j : Job) (s : ScrollbackStorage)
      → flights (sent j s) ≡ after j (map done_flight s.completions) (map job_flight s.jobs)
  flights-sent j s =
      ap (λ xs. xs ++ map job_flight s.jobs)
        (map-append done_flight s.completions (completion_of lz4 j ∷ []))
      ∙ append_assoc (map done_flight s.completions) (done_flight (completion_of lz4 j) ∷ [])
          (map job_flight s.jobs)

  sent-Tracks :
      (j : Job) (s : ScrollbackStorage)
      → IsTracked lz4 (record s { in_hand = some j })
      → Fits j s.history
      → Tracks lz4 (record s { in_hand = some j }) (sent j s)
  sent-Tracks j s v fits =
      let xs = map done_flight s.completions in
      let ys = map job_flight s.jobs in
      let e = flights-sent j s in
      let (stored, rows) = view-repack j xs ys s.history fits v.sound.stored in
      let rows' : lines lz4 (sent j s) ≡ lines lz4 (record s { in_hand = some j }) =
        ap (λ fs. view lz4 fs s.history) e ∙ rows in
      let same_ids : booked (flights (sent j s)) ≡ booked (before j xs ys) =
        ap booked e ∙ booked-repack j xs ys in
      record {
        tracked = record {
          sound = record {
            stored = subst (λ fs. AllStored lz4 fs s.history) (sym e) stored;
            counted = v.sound.counted ∙ ap length (sym rows');
          };
          distinct = v.distinct;
          free = AllFree-booked (before j xs ys) (flights (sent j s)) s.history same_ids v.free;
          below = v.below;
          booked_once = subst Distinct (sym same_ids) v.booked_once;
          booked_below = subst (AllBelow s.next_page_id) (sym same_ids) v.booked_below;
        };
        same_lines = rows';
        same_count = refl;
        same_next = refl;
        same_config = refl;
      }

  -- With a compression that can be undone, in a storage in order: where the job in hand is for a page,
  -- the page has its width and the job holds lines that can be packed, either a buffer with cells in
  -- range or rows of that width that are blank outside of what they say they occupy, within the sizes
  -- of the format. Then the worker changes no line, whether or not there is room for its result, and
  -- leaves the storage in order.
  pub worker_sends-Tracks :
      (s : ScrollbackStorage)
      → IsTracked lz4 s
      → ((j : Job) → s.in_hand ≡ some j → Fits j s.history)
      → Tracks lz4 s (worker_sends lz4 s)
  unfolding worker_sends
  worker_sends-Tracks s v fits = at s.in_hand v fits
    where
      at :
          (o : Option Job)
          → IsTracked lz4 (record s { in_hand = o })
          → ((j : Job) → o ≡ some j → Fits j s.history)
          → Tracks lz4 (record s { in_hand = o }) (worker_sends lz4 (record s { in_hand = o }))
      at none v fits = stays lz4 (record s { in_hand = none }) v
      at (some j) v fits = elim (Bool-cases (ltb (length s.completions) s.completion_capacity)) [
        | inl room ↦ rw room (sent-Tracks j s v (fits j refl))
        | inr no_room ↦ rw no_room (stays lz4 (record s { in_hand = some j }) v)
      ]
