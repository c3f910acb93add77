-- ===== src/Storage/Draining.antt =====
-- Results are taken one after the other: `apply_available_completions` of
-- crates/mr-crabs-terminal/src/storage.rs changes no line.
use mr_crabs.Common.{
  ℕ, ◌+◌, ◌-◌, ◌≡◌, refl, ap, sym, subst, ◌∙◌, Bool, true, false, Option, some, none, List, [], ◌∷◌,
  length, Distinct,
}
use mr_crabs.Grid.{Cell}
use mr_crabs.Storage.{Completion, Page, ScrollbackStorage}
use mr_crabs.Storage.Codec.{Lz4}
use mr_crabs.Storage.Compress.{
  apply_pages, take_result, apply_completion, retain_recycled_rows, apply_all,
}
use mr_crabs.Storage.Pages.{flights}
use mr_crabs.Storage.Booking.{AllBelow, IsTracked}
use mr_crabs.Storage.Tracking.{Tracks, Tracks-trans, stays}
use mr_crabs.Storage.Landing.{after_result, apply_pages-after_result, lands, pages_of}

-- The counters and the rows for reuse say nothing of the lines.
counted :
    (lz4 : Lz4) (s u : ScrollbackStorage) (n m : ℕ) (rs : List (List Cell))
    → Tracks lz4 s u
    → Tracks lz4 s (record u { stale_discarded = n; pending_completions = m; recycled_rows = rs })
counted lz4 s u n m rs t =
    let v = t.tracked in
    record {
      tracked = record {
        sound = record { stored = v.sound.stored; counted = v.sound.counted };
        distinct = v.distinct;
        free = v.free;
        below = v.below;
        booked_once = v.booked_once;
        booked_below = v.booked_below;
      };
      same_lines = t.same_lines;
      same_count = t.same_count;
      same_next = t.same_next;
      same_config = t.same_config;
    }

-- The state with a result taken out of the channel.
abbrev taken : Completion → List Completion → ScrollbackStorage → ScrollbackStorage
taken c cs s = record s { completions = cs; pending_completions = s.pending_completions - 1 }

take_result-Tracks :
    (lz4 : Lz4) (c : Completion) (s s' : ScrollbackStorage) (o : Option (List Page × Bool))
    → Tracks lz4 s (record s' { history = pages_of s'.history o })
    → Tracks lz4 s (take_result c s' o) × ((take_result c s' o).completions ≡ s'.completions)
unfolding retain_recycled_rows
take_result-Tracks lz4 c s s' none t =
    (counted lz4 s s' (s'.stale_discarded + 1) s'.pending_completions s'.recycled_rows t, refl)
take_result-Tracks lz4 c s s' (some (ps, false)) t = (
  counted lz4 s (record s' { history = ps }) (s'.stale_discarded + 1) s'.pending_completions
      s'.recycled_rows t,
  refl,
)
take_result-Tracks lz4 c s s' (some (ps, true)) t =
    (counted lz4 s (record s' { history = ps }) s'.stale_discarded s'.pending_completions _ t, refl)

module _ (lz4 : Lz4) where
  pub apply_completion-Tracks :
      (c : Completion) (cs : List Completion) (s : ScrollbackStorage)
      → IsTracked lz4 (record s { completions = c ∷ cs })
      → Tracks lz4
          (record s { completions = c ∷ cs })
          (apply_completion c (record s { completions = cs }))
        × ((apply_completion c (record s { completions = cs })).completions ≡ cs)
  unfolding apply_completion
  apply_completion-Tracks c cs s v =
      let fs = flights (record s { completions = cs }) in
      let (stored, free, rows, named) =
        lands lz4 c fs s.history v.distinct v.booked_once.0 v.sound.stored v.free in
      let landed : Tracks lz4 (record s { completions = c ∷ cs })
          (record (taken c cs s) { history = after_result c s.history }) =
        record {
          tracked = record {
            sound = record { stored = stored; counted = v.sound.counted ∙ ap length (sym rows) };
            distinct = subst Distinct (sym named) v.distinct;
            free = free;
            below = subst (AllBelow s.next_page_id) (sym named) v.below;
            booked_once = v.booked_once.1;
            booked_below = v.booked_below.1;
          };
          same_lines = rows;
          same_count = refl;
          same_next = refl;
          same_config = refl;
        } in
      take_result-Tracks lz4 c (record s { completions = c ∷ cs }) (taken c cs s)
        (apply_pages c s.history)
        (subst
          (λ ps.
            Tracks lz4 (record s { completions = c ∷ cs }) (record (taken c cs s) { history = ps }))
          (sym (apply_pages-after_result c s.history)) landed)

  pub apply_all-Tracks :
      (cs : List Completion) (s : ScrollbackStorage)
      → s.completions ≡ cs
      → IsTracked lz4 s
      → Tracks lz4 s (apply_all cs s)
  unfolding apply_all
  apply_all-Tracks [] s e v = stays lz4 s v
  apply_all-Tracks (c ∷ cs) s e v =
      let t = apply_completion c (record s { completions = cs }) in
      let here : record s { completions = c ∷ cs } ≡ s =
        ap (λ ds. record s { completions = ds }) (sym e) in
      let (step, left) =
        apply_completion-Tracks c cs s (subst (λ u. IsTracked lz4 u) (sym here) v) in
      subst (λ u. Tracks lz4 u (apply_all cs t)) here
        (Tracks-trans lz4 (record s { completions = c ∷ cs }) t (apply_all cs t) step
          (apply_all-Tracks cs t left step.tracked))
