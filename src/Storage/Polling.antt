-- ===== src/Storage/Polling.antt =====
-- The results that are there are applied and full pages are handed over: `poll_compression` of
-- crates/mr-crabs-terminal/src/storage.rs.
use mr_crabs.Common.{
  ℕ, ◌≡◌, refl, ap, sym, subst, ◌∙◌, true, false, some, List, [], ◌∷◌, length, ◌⊎◌, ◌≤◌, ◌<◌,
  get_elem?, suc, zero, contains, ◌==◌, Bool-cases, inl, inr, arith,
}
use mr_crabs.Storage.{Completion, Page, ScrollbackStorage}
use mr_crabs.Storage.Codec.{Lz4}
use mr_crabs.Storage.Compress.{
  apply_completion, apply_all, apply_available_completions, poll_compression,
}
use mr_crabs.Storage.Booking.{IsTracked}
use mr_crabs.Storage.Applying.{
  packed_page, targets, apply_completion-after_result, length-after_result, after_result-other,
  contains-targets, apply_all-other, targets-once, after_result-packed_page,
}
use mr_crabs.Storage.Visiting.{IsUnready, IsFull}
use mr_crabs.Storage.Handing.{maybe_enqueue_full_pages-HandsOver}
use mr_crabs.Storage.Draining.{apply_completion-Tracks, apply_all-Tracks}
use mr_crabs.Storage.Enqueue.{maybe_enqueue_full_pages-Tracks}
use mr_crabs.Storage.Tracking.{Tracks, Tracks-trans}
use mr_crabs.Storage.Landing.{after_result}

module _ (lz4 : Lz4) where
  record Applies (cs : List Completion) (s s' : ScrollbackStorage) : Type 0 where
    taken_all : s'.completions ≡ []
    same_cursor : s'.enqueue_cursor ≡ s.enqueue_cursor
    same_length : length s'.history ≡ length s.history
    landed :
        (k j : ℕ) (c : Completion) (p : Page)
        → get_elem? cs k ≡ some c
        → get_elem? s.history j ≡ some p
        → p.id ≡ c.page_id
        → get_elem? s'.history j ≡ some (packed_page c p)

  apply_all-Applies :
      (cs : List Completion) (s : ScrollbackStorage)
      → s.completions ≡ cs
      → IsTracked lz4 s
      → Applies cs s (apply_all cs s)
  unfolding apply_all
  apply_all-Applies [] s e v = record {
    taken_all = e;
    same_cursor = refl;
    same_length = refl;
    landed = λ k j c p out. cc;
  }
  apply_all-Applies (c ∷ cs) s e v =
      let u = record s { completions = c ∷ cs } in
      let t = apply_completion c (record s { completions = cs }) in
      let here : u ≡ s = ap (λ ds. record s { completions = ds }) (sym e) in
      let tracked : IsTracked lz4 u = subst (λ x. IsTracked lz4 x) (sym here) v in
      let (step, left) = apply_completion-Tracks lz4 c cs s tracked in
      let (pages, cursor) = apply_completion-after_result c (record s { completions = cs }) in
      let rest = apply_all-Applies cs t left step.tracked in
      record {
        taken_all = rest.taken_all;
        same_cursor = rest.same_cursor ∙ cursor;
        same_length = rest.same_length ∙ ap length pages ∙ length-after_result c s.history;
        landed = landed_by t rest pages tracked;
      }
    where
      apart :
          (p : Page)
          → contains (targets cs) p.id ≡ true
          → contains (targets cs) c.page_id ≡ false
          → (p.id == c.page_id) ≡ false
      apart p hit once = elim (Bool-cases (p.id == c.page_id)) [
        | inr other ↦ other
        | inl same ↦
            let e : p.id ≡ c.page_id = ground (arith, same) in
            absurd (cc (ap (λ i. contains (targets cs) i) e, hit, once))
      ]

      landed_by :
          (t : ScrollbackStorage)
          → Applies cs t (apply_all cs t)
          → t.history ≡ after_result c s.history
          → IsTracked lz4 (record s { completions = c ∷ cs })
          → (k j : ℕ) (d : Completion) (p : Page) → get_elem? (c ∷ cs) k ≡ some d
          → get_elem? s.history j ≡ some p
          → p.id ≡ d.page_id
          → get_elem? (apply_all cs t).history j ≡ some (packed_page d p)
      landed_by t rest pages tracked zero j d p found at same =
          let same_c : c ≡ d = cc in
          let is_c : p.id ≡ c.page_id = same ∙ ap (λ (x : Completion). x.page_id) (sym same_c) in
          let packs : get_elem? t.history j ≡ some (packed_page c p) =
            ap (λ ps. get_elem? ps j) pages
            ∙ after_result-packed_page lz4 c cs s j p tracked at is_c in
          let once : contains (targets cs) p.id ≡ false =
            ap (λ i. contains (targets cs) i) is_c ∙ targets-once lz4 c cs s tracked in
          apply_all-other cs t j (packed_page c p) packs once
          ∙ ap (λ (x : Completion). some (packed_page x p)) same_c
      landed_by t rest pages tracked (suc k) j d p found at same =
          let hit : contains (targets cs) p.id ≡ true =
            ap (λ i. contains (targets cs) i) same ∙ contains-targets cs k d found in
          let other : (p.id == c.page_id) ≡ false = apart p hit (targets-once lz4 c cs s tracked) in
          rest.landed k j d p found
            (ap (λ ps. get_elem? ps j) pages ∙ after_result-other c s.history j p at other) same

  -- What a poll does: no line changes and the storage stays in order; all results are taken; a page
  -- with a result is packed as the result says; and each page from the cursor on, but the last one,
  -- has nothing to hand over any more, unless the queue of jobs is full.
  pub record Polls (s s' : ScrollbackStorage) : Type 0 where
    pub tracks : Tracks lz4 s s'
    pub taken_all : s'.completions ≡ []
    pub landed :
        (k j : ℕ) (c : Completion) (p : Page)
        → get_elem? s.completions k ≡ some c
        → get_elem? s.history j ≡ some p
        → p.id ≡ c.page_id
        → get_elem? s'.history j ≡ some (packed_page c p)
    pub handed :
        (j : ℕ) (p : Page)
        → s.enqueue_cursor ≤ j
        → suc j < length s.history
        → get_elem? s'.history j ≡ some p
        → IsUnready p ⊎ IsFull s'

  -- In a storage in order, a poll takes all results that are there. Each page for which there is a
  -- result is packed as the result says. Then each page from the cursor on, but the last one, is not
  -- full, or has no rows at hand, or waits for the worker, or is packed, unless the queue of jobs is
  -- full. No line changes, and the storage stays in order.
  pub poll_compression-Polls :
      (s : ScrollbackStorage) → IsTracked lz4 s → Polls s (poll_compression s)
  unfolding poll_compression apply_available_completions
  poll_compression-Polls s v =
      let t = apply_all s.completions s in
      let a = apply_all-Tracks lz4 s.completions s refl v in
      let b = apply_all-Applies s.completions s refl v in
      let h = maybe_enqueue_full_pages-HandsOver t in
      record {
        tracks = Tracks-trans lz4 s t _ a (maybe_enqueue_full_pages-Tracks lz4 t a.tracked);
        taken_all = h.same_completions ∙ b.taken_all;
        landed = λ k j c p ec e same. h.kept j (packed_page c p) (b.landed k j c p ec e same) refl;
        handed = λ j p low high e. h.handed j p (rw b.same_cursor low) (rw b.same_length high) e;
      }
