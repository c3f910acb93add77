-- ===== src/Storage/Booking.antt =====
-- Handing pages to the worker keeps every line: `enqueue_page` and `maybe_enqueue_full_pages` of
-- crates/mr-crabs-terminal/src/storage.rs.
use mr_crabs.Common.{
  ℕ, zero, suc, ◌<◌, ◌≡◌, refl, ap, ap₂, sym, subst, ◌∙◌, false, ◌||◌, some, none, List, [], ◌∷◌,
  ◌++◌, get_elem?, set_elem, contains, Distinct, contains-append, ◌==◌, inl, inr, Bool-cases,
  Option-cases, arith,
}
use mr_crabs.Storage.{Page, ScrollbackStorage}
use mr_crabs.Storage.Codec.{Lz4}
use mr_crabs.Storage.Pages.{
  Flight, IsSettled, AllStored, find, is_away, rows_of, settled, content, view, flights, IsStorage,
}

abbrev pub booked : List Flight → List ℕ
booked [] = []
booked (f ∷ fs) = f.page_id ∷ booked fs

abbrev pub ids : List Page → List ℕ
ids [] = []
ids (p ∷ ps) = p.id ∷ ids ps

-- No page at hand has a flight.
abbrev pub AllFree : List Flight → List Page → Type 0
AllFree fs [] = Unit
AllFree fs (p ∷ ps) = (is_away p ≡ false → contains (booked fs) p.id ≡ false) × AllFree fs ps

abbrev pub AllBelow : ℕ → List ℕ → Type 0
AllBelow n [] = Unit
AllBelow n (a ∷ rest) = (a < n) × AllBelow n rest

pub booked-append : (fs gs : List Flight) → booked (fs ++ gs) ≡ booked fs ++ booked gs
booked-append [] gs = refl
booked-append (f ∷ fs) gs = ap (λ xs. f.page_id ∷ xs) (booked-append fs gs)

pub find-none :
    (id g : ℕ) (fs : List Flight) → contains (booked fs) id ≡ false → find id g fs ≡ none
find-none id g [] h = refl
find-none id g (f ∷ fs) h = ground (arith, find-none id g fs)

find-append :
    (id g : ℕ) (fs gs : List Flight) (f : Flight)
    → find id g fs ≡ some f
    → find id g (fs ++ gs) ≡ some f
find-append id g [] gs f h = cc
find-append id g (e ∷ fs) gs f h = ground (arith, find-append id g fs gs f)

pub find-append_none :
    (id g : ℕ) (fs gs : List Flight) → find id g fs ≡ none → find id g (fs ++ gs) ≡ find id g gs
find-append_none id g [] gs h = refl
find-append_none id g (e ∷ fs) gs h = ground (arith, find-append_none id g fs gs)

module _ (lz4 : Lz4) where
  -- The pages have different ids, below the next one, and those at hand have no flight.
  pub record IsTracked (s : ScrollbackStorage) : Type 0 where
    pub sound : IsStorage lz4 s
    pub distinct : Distinct (ids s.history)
    pub free : AllFree (flights s) s.history
    pub below : AllBelow s.next_page_id (ids s.history)
    pub booked_once : Distinct (booked (flights s))
    pub booked_below : AllBelow s.next_page_id (booked (flights s))

  -- What waits at the end of the queue changes no page that is found already.
  pub settled-append :
      (fs gs : List Flight) (p : Page)
      → IsSettled lz4 (settled lz4 fs p)
      → settled lz4 (fs ++ gs) p ≡ settled lz4 fs p
  settled-append fs gs p v = elim (Bool-cases (is_away p)) [
    | inr hand ↦ rw hand refl
    | inl away ↦ elim (Option-cases (find p.id p.generation fs)) [
      | inl lost ↦
          let e : settled lz4 fs p ≡ none = rw (away, lost) refl in
          absurd (subst (IsSettled lz4) e v)
      | inr (f, found) ↦ rw (away, found, find-append p.id p.generation fs gs f found) refl
    ]
  ]

  view-append :
      (fs gs : List Flight) (ps : List Page)
      → AllStored lz4 fs ps
      → view lz4 (fs ++ gs) ps ≡ view lz4 fs ps
  view-append fs gs [] v = refl
  view-append fs gs (p ∷ ps) v =
      ap₂ (λ o xs. rows_of lz4 o ++ xs) (settled-append fs gs p v.0) (view-append fs gs ps v.1)

  AllStored-append :
      (fs gs : List Flight) (ps : List Page) → AllStored lz4 fs ps → AllStored lz4 (fs ++ gs) ps
  AllStored-append fs gs [] v = tt
  AllStored-append fs gs (p ∷ ps) v =
      (subst (IsSettled lz4) (sym (settled-append fs gs p v.0)) v.0, AllStored-append fs gs ps v.1)

  -- A page put in the place of one with the same lines.
  pub record Replaces (fs gs : List Flight) (p p' : Page) : Type 0 where
    pub same_id : p'.id ≡ p.id
    pub settles : IsSettled lz4 (settled lz4 (fs ++ gs) p')
    pub same_rows : content lz4 (fs ++ gs) p' ≡ content lz4 fs p
    pub only : (j : ℕ) → (j == p.id) ≡ false → contains (booked gs) j ≡ false
    pub free : is_away p' ≡ false → contains (booked (fs ++ gs)) p'.id ≡ false

  module _ (fs gs : List Flight) (p p' : Page) (r : Replaces fs gs p p') where
    pub view-replace :
        (i : ℕ) (ps : List Page)
        → get_elem? ps i ≡ some p
        → AllStored lz4 fs ps
        → (view lz4 (fs ++ gs) (set_elem i p' ps) ≡ view lz4 fs ps)
          × AllStored lz4 (fs ++ gs) (set_elem i p' ps)
    view-replace i [] e v = cc
    view-replace zero (q ∷ ps) e v =
        let same : q ≡ p = cc in
        (
          ap₂ (λ xs ys. xs ++ ys) (r.same_rows ∙ ap (λ x. content lz4 fs x) (sym same))
              (view-append fs gs ps v.1),
          (r.settles, AllStored-append fs gs ps v.1),
        )
    view-replace (suc i) (q ∷ ps) e v =
        let (same, kept) = view-replace i ps e v.1 in
        (
          ap₂ (λ o xs. rows_of lz4 o ++ xs) (settled-append fs gs q v.0) same,
          (subst (IsSettled lz4) (sym (settled-append fs gs q v.0)) v.0, kept),
        )

    pub ids-replace :
        (i : ℕ) (ps : List Page) → get_elem? ps i ≡ some p → ids (set_elem i p' ps) ≡ ids ps
    ids-replace i [] e = refl
    ids-replace zero (q ∷ ps) e =
        let same : q ≡ p = cc in
        ap (λ j. j ∷ ids ps) (r.same_id ∙ ap (λ (x : Page). x.id) (sym same))
    ids-replace (suc i) (q ∷ ps) e = ap (λ js. q.id ∷ js) (ids-replace i ps e)

    free_other :
        (q : Page)
        → (q.id == p.id) ≡ false
        → (is_away q ≡ false → contains (booked fs) q.id ≡ false)
        → is_away q ≡ false
        → contains (booked (fs ++ gs)) q.id ≡ false
    free_other q other h hand =
        ap (λ js. contains js q.id) (booked-append fs gs)
        ∙ contains-append q.id (booked fs) (booked gs)
        ∙ ap₂ (λ a b. a || b) (h hand) (r.only q.id other)

    free_others :
        (ps : List Page) → contains (ids ps) p.id ≡ false → AllFree fs ps → AllFree (fs ++ gs) ps
    free_others [] h f = tt
    free_others (q ∷ ps) h f =
        (free_other q (ground (arith, h)) f.0, free_others ps (ground (arith, h)) f.1)

    pub AllFree-replace :
        (i : ℕ) (ps : List Page)
        → get_elem? ps i ≡ some p
        → Distinct (ids ps)
        → AllFree fs ps
        → AllFree (fs ++ gs) (set_elem i p' ps)
    AllFree-replace i [] e d f = tt
    AllFree-replace zero (q ∷ ps) e d f =
        let same : q ≡ p = cc in
        (r.free, free_others ps (subst (λ (x : Page). contains (ids ps) x.id ≡ false) same d.0) f.1)
    AllFree-replace (suc i) (q ∷ ps) e d f =
        (free_other q (apart i q ps e d.0) f.0, AllFree-replace i ps e d.1 f.1)
      where
        apart :
            (i : ℕ) (q : Page) (ps : List Page)
            → get_elem? ps i ≡ some p
            → contains (ids ps) q.id ≡ false
            → (q.id == p.id) ≡ false
        apart i q [] e h = cc
        apart zero q (x ∷ ps) e h =
            let same : x ≡ p = cc in
            subst (λ (x : Page). (q.id == x.id) ≡ false) same (ground (arith, h))
        apart (suc i) q (x ∷ ps) e h = apart i q ps e (ground (arith, h))
