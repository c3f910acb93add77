-- ===== src/Storage/Enqueue.antt =====
-- `enqueue_page` and `maybe_enqueue_full_pages` of crates/mr-crabs-terminal/src/storage.rs keep every
-- line and the bookkeeping.
use mr_crabs.Common.{
  ℕ, zero, suc, ◌+◌, ◌<◌, ◌≡◌, refl, ap, sym, subst, ◌∙◌, Bool, true, false, not, ◌&&◌, Option,
  some, none, List, [], ◌∷◌, ◌++◌, map, length, get_elem?, contains, Distinct, ltb, leb,
  if◌then◌else◌, inl, inr, Bool-cases, Option-cases, append-nil, arith,
}
use mr_crabs.Storage.{Extras, RowDesc, Resident, flat, segmented, Page, ScrollbackStorage}
use mr_crabs.Storage.Codec.{Lz4}
use mr_crabs.Storage.Compress.{
  enqueue_resident, maybe_enqueue_full_pages, note_failure, scan_pages, should_enqueue, visit,
  visit_found, job_of,
}
use mr_crabs.Storage.Pages.{
  Flight, job_flight, IsPage, IsSettled, AllStored, find, is_away, resident_rows, settled, flights,
}
use mr_crabs.Storage.Rows.{eq_self}
use mr_crabs.Storage.Booking.{
  IsTracked, AllBelow, AllFree, booked, booked-append, ids, find-none, find-append_none,
}
use mr_crabs.Storage.Tracking.{Tracks, Tracks-trans, stays, replace, flights-push, Distinct-last}

and_false : (b : Bool) → (b && false) ≡ false
and_false true = refl
and_false false = refl

module _ (lz4 : Lz4) where
  -- What a hot page that is not packed and its buffer are.
  abbrev hot : Page → Resident → Page
  hot p r = record p { resident = some r; compressed = none }

  abbrev marked : Page → Resident → List Extras → Page
  marked p r c = record p { resident = some r; compressed = none; combining = c }

  marked_page :
      (p : Page) (r : Resident) (b : Bool) (c : List Extras)
      → IsPage lz4 (hot p r)
      → IsPage lz4 (record (marked p r c) { pending = b })
        × (resident_rows (record (marked p r c) { pending = b }) r ≡ resident_rows (hot p r) r)
  marked_page p (flat cells) b c v = (record { within = v.within; stored = v.stored }, refl)
  marked_page p (segmented ds) b c v = (record { within = v.within; stored = v.stored }, refl)

  pub enqueue_resident-Tracks :
      (s : ScrollbackStorage) (i : ℕ) (p : Page) (r : Resident) (c : List Extras)
      → IsTracked lz4 s
      → get_elem? s.history i ≡ some (hot p r)
      → contains (booked (flights s)) p.id ≡ false
      → p.id < s.next_page_id
      → IsPage lz4 (hot p r)
      → Tracks lz4 s (enqueue_resident i (marked p r c) (some r) s).0
  enqueue_resident-Tracks s i p r c v e unbooked low page =
      elim (Bool-cases (ltb (length s.jobs) s.job_capacity)) [
        | inl room ↦
            let j = job_of (marked p r c) r in
            let found : find p.id p.generation (flights s ++ (job_flight j ∷ []))
                ≡ some (job_flight j) =
              find-append_none p.id p.generation (flights s) (job_flight j ∷ [])
                (find-none p.id p.generation (flights s) unbooked)
              ∙ rw (eq_self p.id, eq_self p.generation) refl in
            rw room (
              replace lz4 s _ i (job_flight j ∷ []) (hot p r)
                (record p { resident = none; compressed = none; pending = true; combining = c }) v e
                (record {
                  same_id = refl;
                  settles = rw found (marked_page p r true c page).0;
                  same_rows = rw found (marked_page p r true c page).1;
                  only = λ k h. ground (arith, h);
                  free = λ h. cc;
                })
                (low, tt)
                (subst Distinct (sym (booked-append (flights s) (job_flight j ∷ [])))
                  (Distinct-last p.id (booked (flights s)) unbooked v.booked_once))
                refl (flights-push s j) refl refl refl)
        | inr no_room ↦ rw no_room (
            replace lz4 s _ i [] (hot p r) (record (marked p r c) { pending = false }) v e
              (record {
                same_id = refl;
                settles = (marked_page p r false c page).0;
                same_rows = (marked_page p r false c page).1;
                only = λ k h. refl;
                free =
                    λ h. ap (λ fs. contains (booked fs) p.id) (append-nil (flights s)) ∙ unbooked;
              })
              tt (subst (λ fs. Distinct (booked fs)) (sym (append-nil (flights s))) v.booked_once)
              refl (sym (append-nil _)) refl refl refl)
      ]

  -- The page at an index, with what is known of it.
  pub at_index :
      (fs : List Flight) (n i : ℕ) (ps : List Page) (p : Page)
      → get_elem? ps i ≡ some p
      → AllStored lz4 fs ps
      → AllFree fs ps
      → AllBelow n (ids ps)
      → IsSettled lz4 (settled lz4 fs p)
        × (is_away p ≡ false → contains (booked fs) p.id ≡ false)
        × (p.id < n)
  at_index fs n i [] p e v f b = cc
  at_index fs n zero (q ∷ ps) p e v f b =
      subst
        (λ (x : Page).
          IsSettled lz4 (settled lz4 fs x)
          × (is_away x ≡ false → contains (booked fs) x.id ≡ false)
          × (x.id < n))
        (cc e) (v.0, f.0, b.0)
  at_index fs n (suc i) (q ∷ ps) p e v f b = at_index fs n i ps p e v.1 f.1 b.1

  if_tracks :
      (s : ScrollbackStorage)
      → IsTracked lz4 s
      → (b : Bool) (x : ScrollbackStorage × Bool) → Tracks lz4 s x.0
      → Tracks lz4 s (if◌then◌else◌ {A = ScrollbackStorage × Bool} b (x.0, not x.1) (s, false)).0
  if_tracks s v true x t = t
  if_tracks s v false x t = stays lz4 s v

  if_not :
      (s : ScrollbackStorage) (b : Bool) (x : ScrollbackStorage × Bool)
      → b ≡ false
      → Tracks lz4 s s
      → Tracks lz4 s (if◌then◌else◌ {A = ScrollbackStorage × Bool} b (x.0, not x.1) (s, false)).0
  if_not s b x h t = rw h t

  visit_found-Tracks :
      (i : ℕ) (s : ScrollbackStorage) (p : Page)
      → IsTracked lz4 s
      → get_elem? s.history i ≡ some p
      → Tracks lz4 s (visit_found i s (some p)).0
  visit_found-Tracks i s p v e =
      let (stored, unbooked, low) =
        at_index (flights s) s.next_page_id i s.history p e v.sound.stored v.free v.below in
      at p.resident p.compressed e stored unbooked low
    where
      at :
          (r : Option Resident) (c : Option (List ℕ))
          → get_elem? s.history i ≡ some (record p { resident = r; compressed = c })
          → IsSettled lz4 (settled lz4 (flights s) (record p { resident = r; compressed = c }))
          → (is_away (record p { resident = r; compressed = c }) ≡ false
              → contains (booked (flights s)) p.id ≡ false)
          → p.id < s.next_page_id
          → Tracks lz4 s (visit_found i s (some (record p { resident = r; compressed = c }))).0
      at none c e stored unbooked low = stays lz4 s v
      at (some r) (some block) e stored unbooked low =
          if_not s (should_enqueue (record p { resident = some r; compressed = some block })) _
            (and_false _) (stays lz4 s v)
      at (some (flat cells)) none e stored unbooked low =
          if_tracks s v _ _
            (enqueue_resident-Tracks s i p (flat cells) p.combining v e (unbooked refl) low stored)
      at (some (segmented ds)) none e stored unbooked low = if_tracks s v _ _ (
          enqueue_resident-Tracks s i p (segmented ds) (map (λ (d : RowDesc). d.combining) ds) v e
            (unbooked refl) low stored)

  pub visit-Tracks : (i : ℕ) (s : ScrollbackStorage) → IsTracked lz4 s → Tracks lz4 s (visit i s).0
  unfolding visit
  visit-Tracks i s v = elim (Option-cases (get_elem? s.history i)) [
    | inl out ↦ rw out (stays lz4 s v)
    | inr (p, e) ↦ rw e (visit_found-Tracks i s p v e)
  ]

  scan-Tracks :
      (n i : ℕ) (failed : Option ℕ) (s : ScrollbackStorage)
      → IsTracked lz4 s
      → Tracks lz4 s (scan_pages n i failed s).0
  unfolding scan_pages
  scan-Tracks zero i failed s v = stays lz4 s v
  scan-Tracks (suc n) i failed s v =
      let t = visit-Tracks i s v in
      Tracks-trans lz4 s (visit i s).0 _ t
        (scan-Tracks n (i + 1) (note_failure failed i (visit i s).1) (visit i s).0 t.tracked)

  -- The cursor says nothing of the lines.
  moved :
      (n : ℕ) (s s' : ScrollbackStorage)
      → Tracks lz4 s s'
      → Tracks lz4 s (record s' { enqueue_cursor = n })
  moved n s s' t =
      let v = t.tracked in
      record {
        tracked = record {
          sound = record { stored = v.sound.stored; counted = v.sound.counted };
          distinct = v.distinct;
          free = v.free;
          below = v.below;
          booked_once = v.booked_once;
          booked_below = v.booked_below;
        };
        same_lines = t.same_lines;
        same_count = t.same_count;
        same_next = t.same_next;
        same_config = t.same_config;
      }

  -- Handing full pages to the worker changes no line.
  pub maybe_enqueue_full_pages-Tracks :
      (s : ScrollbackStorage) → IsTracked lz4 s → Tracks lz4 s (maybe_enqueue_full_pages s)
  unfolding maybe_enqueue_full_pages
  maybe_enqueue_full_pages-Tracks s v = elim (Bool-cases (leb (length s.history) 1)) [
    | inl few ↦ rw few (moved 0 s s (stays lz4 s v))
    | inr many ↦ rw many (moved _ s _ (scan-Tracks _ _ none s v))
  ]
