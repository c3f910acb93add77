-- ===== src/Storage/Growth.antt =====
-- New rows from the terminal: `ingest_owned_rows_with_bounds` of
-- crates/mr-crabs-terminal/src/storage.rs appends lines and drops the oldest beyond the limit.
use mr_crabs.Common.{
  ℕ, ◌+◌, ◌-◌, ◌≤◌, ◌<◌, ◌≡◌, refl, ap, ap₂, sym, subst, ◌∙◌, true, false, ◌⊎◌, Option, some, none,
  List, [], ◌∷◌, ◌++◌, drop, length, length-append, Distinct, ◌==◌, min, inl, inr, Bool-cases,
  append_assoc, append-nil, add_u64, u64_mod, arith,
}
use mr_crabs.Grid.{Cell}
use mr_crabs.Storage.{
  RowDesc, Resident, flat, segmented, Page, ScrollbackConfig, ScrollbackStorage, is_segmented,
  unsnoc,
}
use mr_crabs.Storage.Codec.{Lz4}
use mr_crabs.Storage.Limit.{enforce_max_lines}
use mr_crabs.Storage.Ingest.{
  add_row, add_row_page, add_rows, add_to_back, append_row, can_append,
  ingest_owned_rows_with_bounds, rewind, row_page,
}
use mr_crabs.Storage.Pages.{
  IsPage, IsSettled, AllStored, is_away, page_rows, rows_at, IsStored, rows_of, content, view,
  flights, lines,
}
use mr_crabs.Storage.Bounded.{IsBlocked, enforce_max_lines-IsStorage}
use mr_crabs.Storage.Trimming.{settled_here}
use mr_crabs.Storage.Kept.{enforce_max_lines-IsTracked}
use mr_crabs.Storage.Booking.{AllBelow, AllFree, IsTracked, booked, ids}
use mr_crabs.Storage.Enqueue.{maybe_enqueue_full_pages-Tracks}
use mr_crabs.Storage.Tracking.{AllBelow-append, map-append}
use mr_crabs.Storage.Snoc.{
  ids-append, below_apart, below_more, Distinct-snoc, unsnoc-some, segmented_here, view-snoc,
  AllStored-snoc, AllStored-init, AllFree-snoc, AllFree-init,
}

abbrev pub cells_of_rows : List (RowDesc × ℕ) → List (List Cell)
cells_of_rows [] = []
cells_of_rows ((d, g) ∷ ds) = d.cells ∷ cells_of_rows ds

-- No row is of no width, which the storage leaves out.
abbrev pub AreWide : List (RowDesc × ℕ) → Type 0
AreWide [] = Unit
AreWide ((d, g) ∷ ds) = (0 < d.cols) × AreWide ds

length-cells_of_rows : (ds : List (RowDesc × ℕ)) → length (cells_of_rows ds) ≡ length ds
length-cells_of_rows [] = refl
length-cells_of_rows ((d, g) ∷ ds) = omega (arith, length-cells_of_rows ds)

module _ (lz4 : Lz4) where
  -- One line more.
  pub record Appends (s : ScrollbackStorage) (new : List (List Cell)) (s' : ScrollbackStorage)
      : Type 0 where
    pub tracked : IsTracked lz4 s'
    pub appended : lines lz4 s' ≡ lines lz4 s ++ new
    pub next_le : s'.next_page_id ≤ s.next_page_id + length new
    pub same_config : s'.config ≡ s.config

  add_row_page-Appends :
      (d : RowDesc) (g : ℕ) (s : ScrollbackStorage)
      → IsTracked lz4 s
      → s.next_page_id + 1 < u64_mod
      → Appends s (d.cells ∷ []) (add_row_page d g s)
  unfolding add_row_page
  add_row_page-Appends d g s v room =
      let q = row_page d g s in
      let s1 : ScrollbackStorage = record s {
        history = s.history ++ (q ∷ []);
        next_page_id = add_u64 s.next_page_id 1;
        logical_lines = s.logical_lines + 1;
        enqueue_cursor = rewind 2 (s.history ++ (q ∷ [])) s.enqueue_cursor;
        cold_cache = none;
      } in
      let longer : lines lz4 s1 ≡ lines lz4 s ++ (d.cells ∷ []) =
        view-snoc lz4 (flights s) s.history q in
      let same_ids : ids (s.history ++ (q ∷ [])) ≡ ids s.history ++ (s.next_page_id ∷ []) =
        ids-append s.history (q ∷ []) in
      let room' : s.next_page_id < add_u64 s.next_page_id 1 = omega (arith, room) in
      let v1 : IsTracked lz4 s1 = record {
        sound = record {
          stored =
              AllStored-snoc lz4 (flights s) s.history q v.sound.stored
                (record { within = omega arith; stored = refl });
          counted = omega (
            arith,
            v.sound.counted,
            ap length longer,
            length-append (lines lz4 s) (d.cells ∷ []),
          );
        };
        distinct =
            subst Distinct (sym same_ids)
              (Distinct-snoc s.next_page_id (ids s.history) v.below v.distinct);
        free =
            AllFree-snoc lz4 (flights s) s.history q v.free
              (λ _. below_apart s.next_page_id (booked (flights s)) v.booked_below);
        below = subst (AllBelow (add_u64 s.next_page_id 1)) (sym same_ids) (
            AllBelow-append _ (ids s.history) (s.next_page_id ∷ [])
              (below_more s.next_page_id _ (ids s.history) (omega (arith, room')) v.below)
              (room', tt));
        booked_once = v.booked_once;
        booked_below =
            below_more s.next_page_id _ (booked (flights s)) (omega (arith, room')) v.booked_below;
      } in
      let t = maybe_enqueue_full_pages-Tracks lz4 s1 v1 in
      record {
        tracked = t.tracked;
        appended = t.same_lines ∙ longer;
        next_le = omega (arith, t.same_next, room);
        same_config = t.same_config;
      }

  append_row-IsPage :
      (d : RowDesc) (p : Page)
      → is_segmented p.resident ≡ true
      → p.lines < p.capacity_lines
      → IsPage lz4 p
      → IsPage lz4 (append_row d p)
        × (page_rows lz4 (append_row d p) ≡ page_rows lz4 p ++ (d.cells ∷ []))
        × (is_away p ≡ false)
        × (is_away (append_row d p) ≡ false)
  append_row-IsPage d p seg room v = at p.resident v.stored seg
    where
      at :
          (r : Option Resident)
          → IsStored lz4 p r
          → is_segmented r ≡ true
          → IsPage lz4 (append_row d (record p { resident = r }))
            × (page_rows lz4 (append_row d (record p { resident = r }))
                ≡ rows_at lz4 (record p { resident = r }) r ++ (d.cells ∷ []))
            × (is_away (record p { resident = r }) ≡ false)
            × (is_away (append_row d (record p { resident = r })) ≡ false)
      at none h e = cc
      at (some (flat cells)) h e = cc
      at (some (segmented ds)) h e = (
        record {
          within = omega (arith, room);
          stored = omega (arith, h, length-append ds (d ∷ []));
        },
        map-append (λ (x : RowDesc). x.cells) ds (d ∷ []),
        refl,
        refl,
      )

  append_back :
      (d : RowDesc) (s : ScrollbackStorage) (front : List Page) (back : Page)
      → s.history ≡ front ++ (back ∷ [])
      → is_segmented back.resident ≡ true
      → back.lines < back.capacity_lines
      → IsTracked lz4 s
      → Appends s (d.cells ∷ []) (record s {
        history = front ++ (append_row d back ∷ []);
        logical_lines = s.logical_lines + 1;
        cold_cache = none;
      })
  append_back d s front back e seg room v =
      let fs = flights s in
      let (stored, settles) =
        AllStored-init lz4 fs front back (subst (λ ps. AllStored lz4 fs ps) e v.sound.stored) in
      let (free, unbooked) =
        AllFree-init lz4 fs front back (subst (λ ps. AllFree fs ps) e v.free) in
      let hand : is_away back ≡ false = segmented_here back seg in
      let (page, longer, _, hand') =
        append_row-IsPage d back seg room
          (subst (IsSettled lz4) (settled_here lz4 fs back hand) settles) in
      let same_ids : ids (front ++ (append_row d back ∷ [])) ≡ ids s.history =
        ids-append front (append_row d back ∷ [])
        ∙ sym (ids-append front (back ∷ []))
        ∙ ap ids (sym e) in
      let more : view lz4 fs (front ++ (append_row d back ∷ [])) ≡ lines lz4 s ++ (d.cells ∷ []) =
        view-snoc lz4 fs front (append_row d back)
        ∙ ap (λ xs. view lz4 fs front ++ xs)
            (ap (λ o. rows_of lz4 o) (settled_here lz4 fs (append_row d back) hand')
              ∙ longer
              ∙ ap (λ o. rows_of lz4 o ++ (d.cells ∷ [])) (sym (settled_here lz4 fs back hand)))
        ∙ sym (append_assoc (view lz4 fs front) (content lz4 fs back) (d.cells ∷ []))
        ∙ ap (λ xs. xs ++ (d.cells ∷ []))
            (sym (view-snoc lz4 fs front back) ∙ ap (λ ps. view lz4 fs ps) (sym e)) in
      record {
        tracked = record {
          sound = record {
            stored =
                AllStored-snoc lz4 fs front (append_row d back) stored (
                  subst (IsSettled lz4) (sym (settled_here lz4 fs (append_row d back) hand')) page);
            counted = omega (
              arith,
              v.sound.counted,
              ap length more,
              length-append (lines lz4 s) (d.cells ∷ []),
            );
          };
          distinct = subst Distinct (sym same_ids) v.distinct;
          free = AllFree-snoc lz4 fs front (append_row d back) free (λ _. unbooked hand);
          below = subst (AllBelow s.next_page_id) (sym same_ids) v.below;
          booked_once = v.booked_once;
          booked_below = v.booked_below;
        };
        appended = more;
        next_le = omega arith;
        same_config = refl;
      }

  add_to_back-Appends :
      (d : RowDesc) (g : ℕ) (s : ScrollbackStorage) (o : Option (List Page × Page))
      → unsnoc s.history ≡ o
      → IsTracked lz4 s
      → s.next_page_id + 1 < u64_mod
      → Appends s (d.cells ∷ []) (add_to_back d g s o)
  add_to_back-Appends d g s none e v room = add_row_page-Appends d g s v room
  add_to_back-Appends d g s (some (front, back)) e v room =
      elim (Bool-cases (can_append d g back)) [
        | inl can ↦ rw can (
            append_back d s front back (unsnoc-some s.history front back e) (ground (arith, can))
              (ground (arith, can)) v)
        | inr new ↦ rw new (add_row_page-Appends d g s v room)
      ]

  add_row-Appends :
      (d : RowDesc) (g : ℕ) (s : ScrollbackStorage)
      → IsTracked lz4 s
      → 0 < d.cols
      → s.next_page_id + 1 < u64_mod
      → Appends s (d.cells ∷ []) (add_row d g s)
  unfolding add_row
  add_row-Appends d g s v wide room =
      let some_width : (d.cols == 0) ≡ false = ground (arith, wide) in
      rw some_width (add_to_back-Appends d g s (unsnoc s.history) refl v room)

  add_rows-Appends :
      (ds : List (RowDesc × ℕ)) (s : ScrollbackStorage)
      → IsTracked lz4 s
      → AreWide ds
      → s.next_page_id + length ds < u64_mod
      → Appends s (cells_of_rows ds) (add_rows ds s)
  unfolding add_rows
  add_rows-Appends [] s v w room = record {
    tracked = v;
    appended = sym (append-nil _);
    next_le = omega arith;
    same_config = refl;
  }
  add_rows-Appends ((d, g) ∷ ds) s v w room =
      let a = add_row-Appends d g s v w.0 (omega (arith, room)) in
      let b = add_rows-Appends ds (add_row d g s) a.tracked w.1 (omega (arith, room, a.next_le)) in
      record {
        tracked = b.tracked;
        appended =
            b.appended
            ∙ ap (λ xs. xs ++ cells_of_rows ds) a.appended
            ∙ append_assoc (lines lz4 s) (d.cells ∷ []) (cells_of_rows ds);
        next_le = omega (arith, a.next_le, b.next_le);
        same_config = b.same_config ∙ a.same_config;
      }

  -- Rows of some width, with enough numbers for new pages left, go into a storage in order: its lines
  -- are then the newest of the old and the new ones, as many as the limit allows; only a front page
  -- that waits for the worker lets more of them stay. The storage stays in order.
  pub ingest_owned_rows_with_bounds-Appends :
      (ds : List (RowDesc × ℕ)) (s : ScrollbackStorage)
      → IsTracked lz4 s
      → AreWide ds
      → s.next_page_id + length ds < u64_mod
      → let s' = ingest_owned_rows_with_bounds lz4 ds s in
        IsTracked lz4 s'
        × (lines lz4 s'
            ≡ drop
                (length (lines lz4 s) + length ds - length (lines lz4 s'))
                (lines lz4 s ++ cells_of_rows ds))
        × ((length (lines lz4 s') ≡ min s.config.max_lines (length (lines lz4 s) + length ds))
            ⊎ (IsBlocked lz4 s'.history × (s.config.max_lines < length (lines lz4 s'))))
  unfolding ingest_owned_rows_with_bounds
  ingest_owned_rows_with_bounds-Appends ds s v w room =
      let a = add_rows-Appends ds s v w room in
      let t = add_rows ds s in
      let (sound, kept, bounded) = enforce_max_lines-IsStorage lz4 t a.tracked.sound in
      let same_limit : t.config.max_lines ≡ s.config.max_lines =
        ap (λ (c : ScrollbackConfig). c.max_lines) a.same_config in
      let total : t.logical_lines ≡ length (lines lz4 s) + length ds = omega (
        arith,
        a.tracked.sound.counted,
        ap length a.appended,
        length-append (lines lz4 s) (cells_of_rows ds),
        length-cells_of_rows ds,
      ) in
      (
        enforce_max_lines-IsTracked lz4 t a.tracked,
        kept
            ∙ ap₂ (λ m n. drop (m - n) (lines lz4 t)) total sound.counted
            ∙ ap
                (λ ls.
                  drop
                    (length (lines lz4 s)
                      + length ds
                      - length (lines lz4 (enforce_max_lines lz4 t)))
                    ls)
                a.appended,
        elim bounded [
          | inl e ↦ inl (omega (arith, sound.counted, e, total, same_limit))
          | inr (waits, over, _) ↦ inr (waits, omega (arith, sound.counted, over, same_limit))
        ],
      )
