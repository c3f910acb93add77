-- ===== src/Storage/Visiting.antt =====
-- What `maybe_enqueue_full_pages` of crates/mr-crabs-terminal/src/storage.rs does with one page.
use mr_crabs.Common.{
  ℕ, ◌≤◌, ◌<◌, ◌≡◌, refl, ap, sym, ◌∙◌, subst, ◌⊎◌, Bool, true, false, not, Option, some, none,
  List, ◌∷◌, [], length, get_elem?, set_elem, ltb, ◌==◌, if◌then◌else◌, inl, inr, Bool-cases,
  Option-cases, length-append, get_elem?-set_elem_self, get_elem?-set_elem_other, get_elem?-range,
  map, arith,
}
use mr_crabs.Storage.{Resident, flat, segmented, Page, RowDesc, ScrollbackStorage, is_some}
use mr_crabs.Storage.Compress.{enqueue_resident, should_enqueue, visit, visit_found, job_of}

-- The page is not full, or has no rows at hand, or waits for the worker, or is packed already.
abbrev pub IsUnready : Page → Type 0
IsUnready p =
    (p.lines < p.capacity_lines)
    ⊎ (p.resident ≡ none)
    ⊎ (p.pending ≡ true)
    ⊎ ((block : List ℕ) × (p.compressed ≡ some block))

abbrev pub IsFull : ScrollbackStorage → Type 0
IsFull s = s.job_capacity ≤ length s.jobs

unready : (p : Page) → should_enqueue p ≡ false → IsUnready p
unready p h = elim (Option-cases p.resident) [
  | inl gone ↦ inr (inl gone)
  | inr (r, hot) ↦ elim (Option-cases p.compressed) [
    | inr (block, packed) ↦ inr (inr (inr (block, packed)))
    | inl plain ↦ elim (Bool-cases p.pending) [
      | inl waits ↦ inr (inr (inl waits))
      | inr idle ↦ inl (ground (arith, h, hot, plain, idle))
    ]
  ]
]

-- What a step over pages leaves alone.
pub record Passes (s s' : ScrollbackStorage) : Type 0 where
  pub grows : length s.jobs ≤ length s'.jobs
  pub same_capacity : s'.job_capacity ≡ s.job_capacity
  pub same_completions : s'.completions ≡ s.completions
  pub kept :
      (j : ℕ) (p : Page)
      → get_elem? s.history j ≡ some p
      → p.resident ≡ none
      → get_elem? s'.history j ≡ some p

pub Passes-refl : (s : ScrollbackStorage) → Passes s s
Passes-refl s = record {
  grows = omega arith;
  same_capacity = refl;
  same_completions = refl;
  kept = λ j p e h. e;
}

pub Passes-trans : (s t u : ScrollbackStorage) → Passes s t → Passes t u → Passes s u
Passes-trans s t u a b = record {
  grows = omega (arith, a.grows, b.grows);
  same_capacity = b.same_capacity ∙ a.same_capacity;
  same_completions = b.same_completions ∙ a.same_completions;
  kept = λ j p e h. b.kept j p (a.kept j p e h) h;
}

-- The page at the index is not ready any more, if there is room, and the others are as before.
pub record Visits (i : ℕ) (s s' : ScrollbackStorage) : Type 0 where
  pub passes : Passes s s'
  pub others : (j : ℕ) → (j == i) ≡ false → get_elem? s'.history j ≡ get_elem? s.history j
  pub handed : (p : Page) → get_elem? s'.history i ≡ some p → IsUnready p ⊎ IsFull s'

-- A hot page is put back changed.
stored-Visits :
    (i : ℕ) (s s' : ScrollbackStorage) (q q' : Page)
    → get_elem? s.history i ≡ some q
    → is_some q.resident ≡ true
    → s'.history ≡ set_elem i q' s.history
    → length s.jobs ≤ length s'.jobs
    → s'.job_capacity ≡ s.job_capacity
    → s'.completions ≡ s.completions
    → IsUnready q' ⊎ IsFull s'
    → Visits i s s'
stored-Visits i s s' q q' e hot eh more ec ed h = record {
  passes = record {
    grows = more;
    same_capacity = ec;
    same_completions = ed;
    kept = λ j p at gone. elim (Bool-cases (j == i)) [
      | inr other ↦ others j other ∙ at
      | inl same ↦
          let here : j ≡ i = ground (arith, same) in
          let found : get_elem? s.history j ≡ some q = rw here e in
          let cold : p.resident ≡ q.resident = ap (λ o. resident_at o) (sym at ∙ found) in
          absurd (cc (cold, gone, hot))
    ];
  };
  others = others;
  handed = λ p at.
      let self : get_elem? s'.history i ≡ some q' =
        rw eh (get_elem?-set_elem_self i q' s.history (get_elem?-range s.history i q e)) in
      let same : q' ≡ p = cc (self, at) in subst (λ (x : Page). IsUnready x ⊎ IsFull s') same h;
}
  where
    resident_at : Option Page → Option Resident
    resident_at none = none
    resident_at (some p) = p.resident

    others : (j : ℕ) → (j == i) ≡ false → get_elem? s'.history j ≡ get_elem? s.history j
    others j other = rw eh (get_elem?-set_elem_other i j q' s.history (ground (arith, other)))

unchanged-Visits :
    (i : ℕ) (s : ScrollbackStorage)
    → ((p : Page) → get_elem? s.history i ≡ some p → IsUnready p)
    → Visits i s s
unchanged-Visits i s h = record {
  passes = Passes-refl s;
  others = λ j other. refl;
  handed = λ p e. inl (h p e);
}

enqueue_resident-Visits :
    (i : ℕ) (s : ScrollbackStorage) (q p : Page) (r : Resident)
    → get_elem? s.history i ≡ some q
    → is_some q.resident ≡ true
    → Visits i s (enqueue_resident i p (some r) s).0
enqueue_resident-Visits i s q p r e hot = elim (Bool-cases (ltb (length s.jobs) s.job_capacity)) [
  | inl room ↦ rw room (
      stored-Visits i s _ q (record p { resident = none; pending = true }) e hot refl
        (omega (arith, length-append s.jobs (job_of p r ∷ []))) refl refl (inl (inr (inl refl))))
  | inr no_room ↦ rw no_room (
      stored-Visits i s _ q (record p { pending = false }) e hot refl (omega arith) refl refl
        (inr (ground (arith, no_room))))
]

visit_if :
    (i : ℕ) (s : ScrollbackStorage) (b : Bool) (x : ScrollbackStorage × Bool)
    → (b ≡ true → Visits i s x.0)
    → (b ≡ false → Visits i s s)
    → Visits i s (if◌then◌else◌ {A = ScrollbackStorage × Bool} b (x.0, not x.1) (s, false)).0
visit_if i s true x t f = t refl
visit_if i s false x t f = f refl

visit_found-Visits :
    (i : ℕ) (s : ScrollbackStorage) (p : Page)
    → get_elem? s.history i ≡ some p
    → Visits i s (visit_found i s (some p)).0
visit_found-Visits i s p e = at p.resident e
  where
    idle : (q : Page) → get_elem? s.history i ≡ some q → should_enqueue q ≡ false → Visits i s s
    idle q e off =
        unchanged-Visits i s
          λ x at. let same : q ≡ x = cc (e, at) in subst IsUnready same (unready q off)

    at :
        (r : Option Resident)
        → get_elem? s.history i ≡ some (record p { resident = r })
        → Visits i s (visit_found i s (some (record p { resident = r }))).0
    at none e = idle (record p { resident = none }) e refl
    at (some (flat cells)) e =
        visit_if i s _ _
          (λ yes.
            enqueue_resident-Visits i s (record p { resident = some (flat cells) })
              (record p { resident = some (flat cells) }) (flat cells) e refl)
          (idle (record p { resident = some (flat cells) }) e)
    at (some (segmented ds)) e =
        visit_if i s _ _
          (λ yes.
            enqueue_resident-Visits i s (record p { resident = some (segmented ds) })
              (record p {
                resident = some (segmented ds);
                combining = map (λ (d : RowDesc). d.combining) ds;
              })
              (segmented ds) e refl)
          (idle (record p { resident = some (segmented ds) }) e)

pub visit-Visits : (i : ℕ) (s : ScrollbackStorage) → Visits i s (visit i s).0
unfolding visit
visit-Visits i s = elim (Option-cases (get_elem? s.history i)) [
  | inl out ↦ rw out (unchanged-Visits i s λ p e. absurd (cc (out, e)))
  | inr (p, e) ↦ rw e (visit_found-Visits i s p e)
]
