-- ===== src/Storage/Kept.antt =====
-- `enforce_max_lines` of crates/mr-crabs-terminal/src/storage.rs keeps the bookkeeping of the pages.
use mr_crabs.Common.{
  ℕ, ◌-◌, ◌<◌, ◌≡◌, subst, sym, false, List, [], ◌∷◌, contains, Distinct, ltb, leb, ltb→lt, inl,
  inr, Bool-cases, arith,
}
use mr_crabs.Storage.{Page, ScrollbackStorage}
use mr_crabs.Storage.Codec.{Lz4}
use mr_crabs.Storage.Limit.{enforce_pages, enforce_max_lines, trim_page, trim_front_page}
use mr_crabs.Storage.Pages.{Flight, IsSettled, AllStored, flights, is_away, settled}
use mr_crabs.Storage.Trimming.{trim_page-Trims, trim_page-away, settled_here}
use mr_crabs.Storage.Bounded.{enforce_max_lines-IsStorage}
use mr_crabs.Storage.Booking.{AllBelow, AllFree, IsTracked, booked, ids}

module _ (fs : List Flight) (n : ℕ) where
  abbrev pub Bookkept : List Page → Type 0
  Bookkept ps = Distinct (ids ps) × AllFree fs ps × AllBelow n (ids ps)

  module _ (lz4 : Lz4) where
    renamed :
        (p p' : Page) (ps : List Page)
        → p'.id ≡ p.id
        → is_away p ≡ false
        → Bookkept (p ∷ ps)
        → Bookkept (p' ∷ ps)
    renamed p p' ps e hand (d, f, b) = (
      (subst (λ j. contains (ids ps) j ≡ false) (sym e) d.0, d.1),
      (λ _. subst (λ j. contains (booked fs) j ≡ false) (sym e) (f.0 hand), f.1),
      (subst (λ j. j < n) (sym e) b.0, b.1),
    )

    cut-Bookkept :
        (limit : ℕ) (p : Page) (ps : List Page) (count : ℕ)
        → IsSettled lz4 (settled lz4 fs p)
        → limit < count
        → count - limit < p.lines
        → Bookkept (p ∷ ps)
        → Bookkept
            (trim_front_page lz4 count (count - limit) p ps (trim_page lz4 (count - limit) p)).pages
    cut-Bookkept limit p ps count v over lt k = elim (Bool-cases (is_away p)) [
      | inl away ↦ rw (trim_page-away lz4 (count - limit) p away) k
      | inr hand ↦
          let (p', e, (v', hand', named, count', same)) =
            trim_page-Trims lz4 (count - limit) p (omega (arith, over)) lt
              (subst (IsSettled lz4) (settled_here lz4 fs p hand) v) in
          rw e (renamed p p' ps named hand k)
    ]

    enforce_pages-Bookkept :
        (limit : ℕ) (ps : List Page) (count : ℕ)
        → AllStored lz4 fs ps
        → Bookkept ps
        → Bookkept (enforce_pages lz4 limit ps count).pages
    unfolding enforce_pages
    enforce_pages-Bookkept limit [] count v k = k
    enforce_pages-Bookkept limit (p ∷ ps) count v k = elim (Bool-cases (ltb limit count)) [
      | inl over ↦ elim (Bool-cases (leb p.lines (count - limit))) [
        | inl whole ↦
            rw (over, whole)
              (enforce_pages-Bookkept limit ps (count - p.lines) v.1 (k.0.1, k.1.1, k.2.1))
        | inr part ↦
            rw (over, part)
              (cut-Bookkept limit p ps count v.0 (ltb→lt _ _ over) (ground (arith, part)) k)
      ]
      | inr under ↦ rw under k
    ]

pub enforce_max_lines-IsTracked :
    (lz4 : Lz4) (s : ScrollbackStorage) → IsTracked lz4 s → IsTracked lz4 (enforce_max_lines lz4 s)
unfolding enforce_max_lines
enforce_max_lines-IsTracked lz4 s v =
    let (d, f, b) =
      enforce_pages-Bookkept (flights s) s.next_page_id lz4 s.config.max_lines s.history
        s.logical_lines v.sound.stored (v.distinct, v.free, v.below) in
    let (sound, _, _) = enforce_max_lines-IsStorage lz4 s v.sound in
    record {
      sound = sound;
      distinct = d;
      free = f;
      below = b;
      booked_once = v.booked_once;
      booked_below = v.booked_below;
    }
