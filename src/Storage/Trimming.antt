-- ===== src/Storage/Trimming.antt =====
-- `trim_front_page` of crates/mr-crabs-terminal/src/storage.rs cuts the front of a page.
use mr_crabs.Common.{
  ℕ, zero, suc, ◌+◌, ◌-◌, ◌*◌, ◌≤◌, ◌<◌, ◌≡◌, refl, ap, sym, ◌∙◌, Bool, true, false, not, ◌&&◌,
  ◌||◌, Option, some, none, List, [], ◌∷◌, ◌++◌, map, drop, length, length-append, length-replicate,
  replicate, leb, ◌==◌, if◌then◌else◌, add_u64, arith,
}
use mr_crabs.Persist.Format.{default_cell}
use mr_crabs.Storage.{RowDesc, Resident, flat, segmented, Page, rows, is_some}
use mr_crabs.Storage.Codec.{Lz4, decode_page}
use mr_crabs.Storage.Limit.{thaw, drop_rows, trim_page}
use mr_crabs.Storage.Pages.{
  Cargo, waiting, packed, land, Flight, IsFilled, IsPage, IsSettled, IsStored, find, is_away,
  landed, page_rows, decoded_rows, resident_rows, rows_of, rows_at, settled, content,
}
use mr_crabs.Storage.Rows.{
  length-cells, length-rows, rows-shift, length-shift, add_mul, mul_le, length-drop,
}

map-drop :
    (n : ℕ) (ds : List RowDesc)
    → map (λ (d : RowDesc). d.cells) (drop n ds) ≡ drop n (map (λ (d : RowDesc). d.cells) ds)
map-drop zero ds = refl
map-drop (suc n) [] = refl
map-drop (suc n) (d ∷ ds) = map-drop n ds

if_same {ℓ} : {A : Type ℓ} (b : Bool) (x : A) → (if b then x else x) ≡ x
if_same true x = refl
if_same false x = refl

module _ (lz4 : Lz4) where
  -- A page without its first lines.
  abbrev pub Trims : ℕ → Page → Page → Type 0
  Trims n p p' =
      IsPage lz4 p'
      × (is_away p' ≡ false)
      × (p'.id ≡ p.id)
      × (p'.lines ≡ p.lines - n)
      × (page_rows lz4 p' ≡ drop n (page_rows lz4 p))

  drop_rows-Trims :
      (n : ℕ) (p : Page) (r : Resident)
      → n ≤ p.lines
      → p.lines ≤ p.capacity_lines
      → IsFilled p r
      → (p' : Page) × (drop_rows lz4 n p (some r) ≡ some p')
        × IsPage lz4 p'
        × (is_some p'.resident ≡ true)
        × (p'.id ≡ p.id)
        × (p'.lines ≡ p.lines - n)
        × (page_rows lz4 p' ≡ drop n (resident_rows p r))
  drop_rows-Trims n p (segmented ds) le room filled = (
    _,
    refl,
    record { within = omega (arith, room); stored = omega (arith, filled, length-drop n ds) },
    refl,
    refl,
    refl,
    map-drop n ds,
  )
  drop_rows-Trims n p (flat cells) le room filled =
      let k = p.lines - n in
      let whole : n + k ≡ p.lines = omega (arith, le) in
      let filler = replicate (n * p.cols) default_cell ++ drop (p.lines * p.cols) cells in
      let full : p.lines * p.cols ≤ p.capacity_lines * p.cols =
        mul_le p.lines p.capacity_lines p.cols room in
      let sum : p.lines * p.cols ≡ n * p.cols + k * p.cols =
        ap (λ m. m * p.cols) (sym whole) ∙ add_mul n k p.cols in
      let fits : (n + k) * p.cols ≤ length cells =
        omega (arith, add_mul n k p.cols, sum, full, filled) in
      (
        _,
        refl,
        record {
          within = omega (arith, room);
          stored = omega (
            arith,
            length-shift p.cols n k cells filler fits,
            length-append (replicate (n * p.cols) default_cell) (drop (p.lines * p.cols) cells),
            length-replicate (n * p.cols) default_cell,
            length-drop (p.lines * p.cols) cells,
            filled,
            sum,
            full,
          );
        },
        refl,
        refl,
        refl,
        rows-shift p.cols n k cells filler fits ∙ ap (λ m. drop n (rows p.cols m cells)) whole,
      )

  -- The generation and the flag say nothing of the lines.
  restamp-IsPage :
      (g : ℕ) (b : Bool) (p : Page)
      → IsPage lz4 p
      → IsPage lz4 (record p { generation = g; pending = b })
        × (page_rows lz4 (record p { generation = g; pending = b }) ≡ page_rows lz4 p)
  unfolding decode_page
  restamp-IsPage g b p v =
      let (stored, same) = at p.resident v.stored in
      (record { within = v.within; stored = stored }, same)
    where
      at :
          (r : Option Resident)
          → IsStored lz4 p r
          → IsStored lz4 (record p { generation = g; pending = b }) r
            × (rows_at lz4 (record p { generation = g; pending = b }) r ≡ rows_at lz4 p r)
      at none h = (h, refl)
      at (some (flat cells)) h = (h, refl)
      at (some (segmented ds)) h = (h, refl)

  not_away : (p : Page) → is_some p.resident ≡ true → is_away p ≡ false
  not_away p h = rw h refl

  trim_page-thaw :
      (n : ℕ) (p q q' : Page)
      → 0 < n
      → n < p.lines
      → thaw lz4 p ≡ some q
      → drop_rows lz4 n q q.resident ≡ some q'
      → trim_page lz4 n p
        ≡ some (record q' { generation = add_u64 q'.generation 1; pending = false })
  unfolding trim_page
  trim_page-thaw n p q q' pos lt thawed dropped =
      let inside : ((n == 0) || leb p.lines n) ≡ false = ground (arith, pos, lt) in
      simp (inside, thawed, dropped)

  -- A page at hand that is not corrupt can be cut.
  pub trim_page-Trims :
      (n : ℕ) (p : Page)
      → 0 < n
      → n < p.lines
      → IsPage lz4 p
      → (p' : Page) × (trim_page lz4 n p ≡ some p') × Trims n p p'
  unfolding thaw decode_page
  trim_page-Trims n p pos lt v = at p.resident v.stored
    where
      at :
          (r : Option Resident)
          → IsStored lz4 p r
          → (p' : Page) × (trim_page lz4 n (record p { resident = r }) ≡ some p')
            × Trims n (record p { resident = r }) p'
      at (some r) filled =
          let (q', dropped, v', hot, named, count, same) =
            drop_rows-Trims n (record p { resident = some r }) r (omega (arith, lt)) v.within
              filled in
          let (v'', same') = restamp-IsPage (add_u64 q'.generation 1) false q' v' in
          (
            _,
            trim_page-thaw n (record p { resident = some r }) (record p { resident = some r }) q'
                pos lt refl dropped,
            (v'', not_away q' hot, named, count, same' ∙ same),
          )
      at none (cells, decoded, full) =
          let q : Page = record p {
            resident = some (flat cells);
            compressed = none;
            sparse = false;
          } in
          let (q', dropped, v', hot, named, count, same) =
            drop_rows-Trims n q (flat cells) (omega (arith, lt)) v.within full in
          let (v'', same') = restamp-IsPage (add_u64 q'.generation 1) false q' v' in
          (
            _,
            trim_page-thaw n (record p { resident = none }) q q' pos lt (rw decoded refl) dropped,
            (
              v'',
              not_away q' hot,
              named,
              count,
              same' ∙ same ∙ ap (λ o. drop n (decoded_rows p o)) (sym decoded),
            ),
          )

  length-page_rows : (p : Page) → IsPage lz4 p → length (page_rows lz4 p) ≡ p.lines
  length-page_rows p v = at p.resident v.stored
    where
      at : (r : Option Resident) → IsStored lz4 p r → length (rows_at lz4 p r) ≡ p.lines
      at (some (flat cells)) h = length-rows p.cols p.lines cells
      at (some (segmented ds)) h = length-cells ds ∙ h
      at none (cells, decoded, h) = rw decoded (length-rows p.cols p.lines cells)

  pub length-content :
      (fs : List Flight) (p : Page)
      → IsSettled lz4 (settled lz4 fs p)
      → length (content lz4 fs p) ≡ p.lines
  length-content fs p v = at (is_away p) (find p.id p.generation fs) v
    where
      at :
          (away : Bool) (f : Option Flight)
          → IsSettled lz4 (if away then landed lz4 p f else some p)
          → length (rows_of lz4 (if away then landed lz4 p f else some p)) ≡ p.lines
      at false f v = length-page_rows p v
      at true none v = absurd v
      at true (some f) v = length-landed f.cargo v
        where
          length-landed :
              (c : Cargo) → IsPage lz4 (land c p) → length (page_rows lz4 (land c p)) ≡ p.lines
          length-landed (waiting r) v = length-page_rows _ v
          length-landed (packed bytes sparse) v = length-page_rows _ v

  pub trim_page-away : (n : ℕ) (p : Page) → is_away p ≡ true → trim_page lz4 n p ≡ none
  unfolding trim_page thaw decode_page
  trim_page-away n p away = at p.resident p.compressed away
    where
      at :
          (r : Option Resident) (c : Option (List ℕ))
          → (not (is_some r) && not (is_some c)) ≡ true
          → trim_page lz4 n (record p { resident = r; compressed = c }) ≡ none
      at none none h = if_same ((n == 0) || leb p.lines n) none
      at none (some c) h = cc
      at (some r) c h = cc

  pub settled_here : (fs : List Flight) (p : Page) → is_away p ≡ false → settled lz4 fs p ≡ some p
  settled_here fs p h = rw h refl
