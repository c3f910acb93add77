-- ===== src/Storage/Landing.antt =====
-- Results are put into their pages: `apply_completion` of crates/mr-crabs-terminal/src/storage.rs
-- changes no line.
use mr_crabs.Common.{
  ◌≡◌, refl, ap, ap₂, sym, subst, ◌∙◌, Bool, true, false, ◌&&◌, Option, some, none, List, [], ◌∷◌,
  ◌++◌, contains, Distinct, ◌==◌, if◌then◌else◌, inl, inr, Bool-cases, arith, ◌>>=◌,
}
use mr_crabs.Storage.{Completion, Page}
use mr_crabs.Storage.Codec.{Lz4, decode_page}
use mr_crabs.Storage.Compress.{finish, apply_pages}
use mr_crabs.Storage.Pages.{
  Flight, packed, land, done_flight, IsPage, IsSettled, AllStored, find, is_away, page_rows,
  rows_of, settled, content, view,
}
use mr_crabs.Storage.Booking.{AllFree, booked, ids, find-none}

-- The pages after a result.
abbrev pub after_result : Completion → List Page → List Page
after_result c [] = []
after_result c (p ∷ ps) =
    let rest = after_result c ps in if p.id == c.page_id then (finish c p).0 ∷ ps else p ∷ rest

abbrev pub pages_of : List Page → Option (List Page × Bool) → List Page
pages_of ps none = ps
pages_of ps (some r) = r.0

pub apply_pages-after_result :
    (c : Completion) (ps : List Page) → pages_of ps (apply_pages c ps) ≡ after_result c ps
unfolding apply_pages
apply_pages-after_result c [] = refl
apply_pages-after_result c (p ∷ ps) = elim (Bool-cases (p.id == c.page_id)) [
  | inl hit ↦ rw hit refl
  | inr miss ↦
      rw miss (cons p ps (apply_pages c ps) ∙ ap (λ qs. p ∷ qs) (apply_pages-after_result c ps))
]
  where
    cons :
        (p : Page) (ps : List Page) (o : Option (List Page × Bool))
        → pages_of (p ∷ ps) (o >>= λ r. some (p ∷ r.0, r.1)) ≡ p ∷ pages_of ps o
    cons p ps none = refl
    cons p ps (some r) = refl

module _ (lz4 : Lz4) (c : Completion) (fs : List Flight) where
  abbrev before : List Flight
  before = done_flight c ∷ fs

  unmarked :
      (p : Page)
      → IsPage lz4 (land (packed c.compressed c.sparse) p)
      → let q = record p {
        compressed = some c.compressed;
        sparse = c.sparse;
        resident = none;
        pending = false;
      } in
        IsPage lz4 q × (page_rows lz4 q ≡ page_rows lz4 (land (packed c.compressed c.sparse) p))
  unfolding decode_page
  unmarked p v = (record { within = v.within; stored = v.stored }, refl)

  other : (p : Page) → (c.page_id == p.id) ≡ false → settled lz4 fs p ≡ settled lz4 before p
  other p h = rw h refl

  -- A page for which the result is.
  landing_page :
      (p : Page)
      → p.id ≡ c.page_id
      → contains (booked fs) c.page_id ≡ false
      → (is_away p ≡ false → contains (booked before) p.id ≡ false)
      → IsSettled lz4 (settled lz4 before p)
      → IsSettled lz4 (settled lz4 fs (finish c p).0)
        × (content lz4 fs (finish c p).0 ≡ content lz4 before p)
        × ((finish c p).0.id ≡ p.id)
  landing_page p same once free v = elim (Bool-cases (is_away p)) [
    | inl away ↦ elim (Bool-cases (p.generation == c.generation)) [
      | inl current ↦
          let found : find p.id p.generation before ≡ some (done_flight c) =
            let hit : ((c.page_id == p.id) && (c.generation == p.generation)) ≡ true =
              ground (arith, same, current) in
            rw hit refl in
          let e : settled lz4 before p ≡ some (land (packed c.compressed c.sparse) p) =
            rw (away, found) refl in
          let (page, rows) = unmarked p (subst (IsSettled lz4) e v) in
          rw current (page, rows ∙ ap (rows_of lz4) (sym e), refl)
      | inr stale ↦
          let lost : find p.id p.generation before ≡ none =
            let miss : ((c.page_id == p.id) && (c.generation == p.generation)) ≡ false =
              ground (arith, same, stale) in
            let gone : contains (booked fs) p.id ≡ false =
              ap (λ j. contains (booked fs) j) same ∙ once in
            rw miss (find-none p.id p.generation fs gone) in
          let e : settled lz4 before p ≡ none = rw (away, lost) refl in
          absurd (subst (IsSettled lz4) e v)
    ]
    | inr hand ↦ absurd (ground (arith, free hand, same))
  ]

  -- Pages for which the result is not.
  others :
      (ps : List Page)
      → contains (ids ps) c.page_id ≡ false
      → AllStored lz4 before ps
      → AllFree before ps
      → AllStored lz4 fs ps × AllFree fs ps × (view lz4 fs ps ≡ view lz4 before ps)
  others [] h v f = (tt, tt, refl)
  others (p ∷ ps) h v f =
      let e = other p (ground (arith, h)) in
      let (stored, free, rows) = others ps (ground (arith, h)) v.1 f.1 in
      (
        (subst (IsSettled lz4) (sym e) v.0, stored),
        (λ hand. let k = f.0 hand in ground (arith, k), free),
        ap₂ (λ o ls. rows_of lz4 o ++ ls) e rows,
      )

  pub lands :
      (ps : List Page)
      → Distinct (ids ps)
      → contains (booked fs) c.page_id ≡ false
      → AllStored lz4 before ps
      → AllFree before ps
      → AllStored lz4 fs (after_result c ps)
        × AllFree fs (after_result c ps)
        × (view lz4 fs (after_result c ps) ≡ view lz4 before ps)
        × (ids (after_result c ps) ≡ ids ps)
  lands [] d once v f = (tt, tt, refl, refl)
  lands (p ∷ ps) d once v f = elim (Bool-cases (p.id == c.page_id)) [
    | inl hit ↦
        let same : p.id ≡ c.page_id = ground (arith, hit) in
        let (page, rows, named) = landing_page p same once f.0 v.0 in
        let (stored, free, more) =
          others ps (subst (λ j. contains (ids ps) j ≡ false) same d.0) v.1 f.1 in
        rw hit (
          (page, stored),
          (λ _. ap (λ j. contains (booked fs) j) (named ∙ same) ∙ once, free),
          ap₂ (λ ls ms. ls ++ ms) rows more,
          ap (λ j. j ∷ ids ps) named,
        )
    | inr miss ↦
        let e = other p (ground (arith, miss)) in
        let (stored, free, rows, named) = lands ps d.1 once v.1 f.1 in
        rw miss (
          (subst (IsSettled lz4) (sym e) v.0, stored),
          (λ hand. let k = f.0 hand in ground (arith, k), free),
          ap₂ (λ o ls. rows_of lz4 o ++ ls) e rows,
          ap (λ js. p.id ∷ js) named,
        )
  ]
