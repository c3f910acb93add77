-- ===== src/Storage/Handing.antt =====
-- Which pages `maybe_enqueue_full_pages` of crates/mr-crabs-terminal/src/storage.rs hands to the
-- worker.
use mr_crabs.Storage.Visiting.{IsUnready, IsFull, Passes, Passes-refl, Passes-trans, visit-Visits}
use mr_crabs.Common.{
  ℕ, zero, suc, ◌+◌, ◌≤◌, ◌<◌, ◌≡◌, refl, sym, ◌∙◌, subst, ◌⊎◌, Option, some, none, length,
  get_elem?, leb, ◌==◌, inl, inr, Bool-cases, ◌-◌, min, arith,
}
use mr_crabs.Storage.{Page, ScrollbackStorage}
use mr_crabs.Storage.Compress.{maybe_enqueue_full_pages, note_failure, scan_pages, visit}

-- The pages from one index on are handed over, if there is room, and those before stay.
record Scans (n i : ℕ) (s s' : ScrollbackStorage) : Type 0 where
  passes : Passes s s'
  before : (j : ℕ) → j < i → get_elem? s'.history j ≡ get_elem? s.history j
  handed :
      (j : ℕ) (p : Page)
      → i ≤ j
      → j < i + n
      → get_elem? s'.history j ≡ some p
      → IsUnready p ⊎ IsFull s'

scan_pages-Scans :
    (n i : ℕ) (failed : Option ℕ) (s : ScrollbackStorage) → Scans n i s (scan_pages n i failed s).0
unfolding scan_pages
scan_pages-Scans zero i failed s = record {
  passes = Passes-refl s;
  before = λ j h. refl;
  handed = λ j p low high e. absurd (omega (arith, low, high));
}
scan_pages-Scans (suc n) i failed s =
    let v = visit-Visits i s in
    let t = (visit i s).0 in
    let u = (scan_pages n (i + 1) (note_failure failed i (visit i s).1) t).0 in
    let r = scan_pages-Scans n (i + 1) (note_failure failed i (visit i s).1) t in
    record {
      passes = Passes-trans s t _ v.passes r.passes;
      before = λ j h. r.before j (omega (arith, h)) ∙ v.others j (ground (arith, h));
      handed = λ j p low high e. elim (Bool-cases (j == i)) [
        | inr other ↦ r.handed j p (ground (arith, low, other)) (omega (arith, high)) e
        | inl same ↦
            let here : j ≡ i = ground (arith, same) in
            let at : get_elem? t.history i ≡ some p =
              sym (r.before i (omega arith)) ∙ subst (λ k. get_elem? u.history k ≡ some p) here e in
            elim (v.handed p at) [
              | inl done ↦ inl done
              | inr full ↦ inr (omega (arith, full, r.passes.grows, r.passes.same_capacity))
            ]
      ];
    }

-- What the whole pass over the pages does.
pub record HandsOver (s s' : ScrollbackStorage) : Type 0 where
  pub same_completions : s'.completions ≡ s.completions
  pub kept :
      (j : ℕ) (p : Page)
      → get_elem? s.history j ≡ some p
      → p.resident ≡ none
      → get_elem? s'.history j ≡ some p
  pub handed :
      (j : ℕ) (p : Page)
      → s.enqueue_cursor ≤ j
      → suc j < length s.history
      → get_elem? s'.history j ≡ some p
      → IsUnready p ⊎ IsFull s'

pub maybe_enqueue_full_pages-HandsOver :
    (s : ScrollbackStorage) → HandsOver s (maybe_enqueue_full_pages s)
unfolding maybe_enqueue_full_pages
maybe_enqueue_full_pages-HandsOver s = elim (Bool-cases (leb (length s.history) 1)) [
  | inl few ↦ rw few (record {
    same_completions = refl;
    kept = λ j p e h. e;
    handed = λ j p low high e. absurd (ground (arith, few, high));
  })
  | inr many ↦
      let last = length s.history - 1 in
      let start = min s.enqueue_cursor last in
      let r = scan_pages-Scans (last - start) start none s in
      rw many (record {
        same_completions = r.passes.same_completions;
        kept = r.passes.kept;
        handed = λ j p low high e. r.handed j p (omega (arith, low)) (omega (arith, low, high)) e;
      })
]
