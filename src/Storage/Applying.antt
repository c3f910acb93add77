-- ===== src/Storage/Applying.antt =====
-- Where a result goes: `apply_completion` of crates/mr-crabs-terminal/src/storage.rs.
use mr_crabs.Common.{
  ℕ, zero, suc, ◌≡◌, refl, ap, sym, subst, ◌∙◌, Bool, true, false, ◌&&◌, Option, some, none, List,
  [], ◌∷◌, ◌++◌, map, length, get_elem?, contains, contains-append, Distinct, ◌==◌, inl, inr,
  Bool-cases, arith,
}
use mr_crabs.Storage.{Completion, Page, ScrollbackStorage}
use mr_crabs.Storage.Codec.{Lz4}
use mr_crabs.Storage.Compress.{
  finish, apply_pages, take_result, apply_completion, apply_all, retain_recycled_rows,
}
use mr_crabs.Storage.Pages.{
  done_flight, find, IsSettled, settled, is_away, flights, held, job_flight,
}
use mr_crabs.Storage.Booking.{IsTracked, booked, booked-append, ids, find-none}
use mr_crabs.Storage.Enqueue.{at_index}
use mr_crabs.Storage.Landing.{after_result, pages_of, apply_pages-after_result}

-- The page with the block of the result in place of its rows.
abbrev pub packed_page : Completion → Page → Page
packed_page c p = record p {
  compressed = some c.compressed;
  sparse = c.sparse;
  resident = none;
  pending = false;
}

-- The pages that results are for.
abbrev pub targets : List Completion → List ℕ
targets cs = booked (map done_flight cs)

take_result-pages_of :
    (c : Completion) (s : ScrollbackStorage) (o : Option (List Page × Bool))
    → ((take_result c s o).history ≡ pages_of s.history o)
      × ((take_result c s o).enqueue_cursor ≡ s.enqueue_cursor)
unfolding retain_recycled_rows
take_result-pages_of c s none = (refl, refl)
take_result-pages_of c s (some (ps, false)) = (refl, refl)
take_result-pages_of c s (some (ps, true)) = (refl, refl)

pub apply_completion-after_result :
    (c : Completion) (s : ScrollbackStorage)
    → ((apply_completion c s).history ≡ after_result c s.history)
      × ((apply_completion c s).enqueue_cursor ≡ s.enqueue_cursor)
unfolding apply_completion
apply_completion-after_result c s =
    let (pages, cursor) = take_result-pages_of c _ (apply_pages c s.history) in
    (pages ∙ apply_pages-after_result c s.history, cursor)

pub length-after_result : (c : Completion) (ps : List Page) → length (after_result c ps) ≡ length ps
length-after_result c [] = refl
length-after_result c (p ∷ ps) = elim (Bool-cases (p.id == c.page_id)) [
  | inl hit ↦ rw hit refl
  | inr miss ↦ rw miss (ap suc (length-after_result c ps))
]

pub after_result-other :
    (c : Completion) (ps : List Page) (j : ℕ) (p : Page)
    → get_elem? ps j ≡ some p
    → (p.id == c.page_id) ≡ false
    → get_elem? (after_result c ps) j ≡ some p
after_result-other c [] j p e other = cc
after_result-other c (q ∷ ps) zero p e other =
    let same : q ≡ p = cc in
    let miss : (q.id == c.page_id) ≡ false =
      subst (λ (x : Page). (x.id == c.page_id) ≡ false) (sym same) other in
    rw miss e
after_result-other c (q ∷ ps) (suc j) p e other = elim (Bool-cases (q.id == c.page_id)) [
  | inl hit ↦ rw hit e
  | inr miss ↦ rw miss (after_result-other c ps j p e other)
]

contains-ids :
    (ps : List Page) (j : ℕ) (p : Page) → get_elem? ps j ≡ some p → contains (ids ps) p.id ≡ true
contains-ids [] j p e = cc
contains-ids (q ∷ ps) zero p e = let same : q.id ≡ p.id = cc in ground (arith, same)
contains-ids (q ∷ ps) (suc j) p e = ground (arith, contains-ids ps j p e)

pub contains-targets :
    (cs : List Completion) (k : ℕ) (c : Completion)
    → get_elem? cs k ≡ some c
    → contains (targets cs) c.page_id ≡ true
contains-targets [] k c e = cc
contains-targets (d ∷ cs) zero c e = let same : d.page_id ≡ c.page_id = cc in ground (arith, same)
contains-targets (d ∷ cs) (suc k) c e = ground (arith, contains-targets cs k c e)

after_result_self :
    (c : Completion) (ps : List Page) (j : ℕ) (p : Page)
    → Distinct (ids ps)
    → get_elem? ps j ≡ some p
    → p.id ≡ c.page_id
    → get_elem? (after_result c ps) j ≡ some (finish c p).0
after_result_self c [] j p d e same = cc
after_result_self c (q ∷ ps) zero p d e same =
    let here : q ≡ p = cc in
    let hit : (q.id == c.page_id) ≡ true =
      subst (λ (x : Page). (x.id == c.page_id) ≡ true) (sym here) (ground (arith, same)) in
    rw hit (ap (λ (x : Page). some (finish c x).0) here)
after_result_self c (q ∷ ps) (suc j) p d e same =
    let miss : (q.id == c.page_id) ≡ false = ground (arith, d.0, contains-ids ps j p e, same) in
    rw miss (after_result_self c ps j p d.1 e same)

-- Results for other pages leave a page alone.
pub apply_all-other :
    (cs : List Completion) (s : ScrollbackStorage) (j : ℕ) (p : Page)
    → get_elem? s.history j ≡ some p
    → contains (targets cs) p.id ≡ false
    → get_elem? (apply_all cs s).history j ≡ some p
unfolding apply_all
apply_all-other [] s j p e h = e
apply_all-other (c ∷ cs) s j p e h =
    let (pages, _) = apply_completion-after_result c (record s { completions = cs }) in
    apply_all-other cs (apply_completion c (record s { completions = cs })) j p
      (rw pages (after_result-other c s.history j p e (ground (arith, h)))) (ground (arith, h))

module _ (lz4 : Lz4) (c : Completion) (cs : List Completion) (s : ScrollbackStorage) where
  abbrev full : ScrollbackStorage
  full = record s { completions = c ∷ cs }

  -- No later result is for the page of the first.
  pub targets-once : IsTracked lz4 full → contains (targets cs) c.page_id ≡ false
  targets-once v =
      let more = held s.in_hand ++ map job_flight s.jobs in
      let h : contains (booked (map done_flight cs ++ more)) c.page_id ≡ false = v.booked_once.0 in
      ground (
        arith,
        h,
        ap (λ xs. contains xs c.page_id) (booked-append (map done_flight cs) more),
        contains-append c.page_id (targets cs) (booked more),
      )

  -- The result for a page that waits has its generation.
  current :
      (j : ℕ) (p : Page)
      → IsTracked lz4 full
      → get_elem? s.history j ≡ some p
      → p.id ≡ c.page_id
      → (p.generation == c.generation) ≡ true
  current j p v e same =
      let fs = flights (record s { completions = cs }) in
      let (settles, free, _) =
        at_index lz4 (flights full) s.next_page_id j s.history p e v.sound.stored v.free v.below in
      elim (Bool-cases (is_away p)) [
        | inr hand ↦ absurd (ground (arith, free hand, same))
        | inl away ↦ elim (Bool-cases (p.generation == c.generation)) [
          | inl right ↦ right
          | inr stale ↦
              let lost : find p.id p.generation (flights full) ≡ none =
                let miss : ((c.page_id == p.id) && (c.generation == p.generation)) ≡ false =
                  ground (arith, same, stale) in
                let gone : contains (booked fs) p.id ≡ false =
                  ap (λ j. contains (booked fs) j) same ∙ v.booked_once.0 in
                rw miss (find-none p.id p.generation fs gone) in
              let missing : settled lz4 (flights full) p ≡ none = rw (away, lost) refl in
              absurd (subst (IsSettled lz4) missing settles)
        ]
      ]

  -- The page of a result is packed by it.
  pub after_result-packed_page :
      (j : ℕ) (p : Page)
      → IsTracked lz4 full
      → get_elem? s.history j ≡ some p
      → p.id ≡ c.page_id
      → get_elem? (after_result c s.history) j ≡ some (packed_page c p)
  after_result-packed_page j p v e same =
      after_result_self c s.history j p v.distinct e same
      ∙ ap (λ q. some q) (rw (current j p v e same) refl)
