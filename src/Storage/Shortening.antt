-- ===== src/Storage/Shortening.antt =====
-- The newest page cut to its first lines: `truncate_lines` of
-- crates/mr-crabs-terminal/src/storage.rs.
use mr_crabs.Common.{
  ℕ, zero, suc, ◌+◌, ◌-◌, ◌≤◌, ◌≡◌, refl, ap, sym, subst, ◌∙◌, false, Option, some, none, List, [],
  ◌∷◌, map, take, length, arith,
}
use mr_crabs.Grid.{Cell}
use mr_crabs.Storage.{RowDesc, Resident, flat, segmented, Page, rows}
use mr_crabs.Storage.Codec.{Lz4, decode_page}
use mr_crabs.Storage.Limit.{keep_rows, restored_page, restore_with}
use mr_crabs.Storage.Pages.{
  IsFilled, IsPage, IsStored, is_away, page_rows, resident_rows, rows_at, decoded_rows,
}
use mr_crabs.Storage.Rows.{take-rows, length-take}

map-take :
    (n : ℕ) (ds : List RowDesc)
    → map (λ (d : RowDesc). d.cells) (take n ds) ≡ take n (map (λ (d : RowDesc). d.cells) ds)
map-take zero ds = refl
map-take (suc n) [] = refl
map-take (suc n) (d ∷ ds) = ap (λ xs. d.cells ∷ xs) (map-take n ds)

module _ (lz4 : Lz4) where
  -- A page cut to its first lines.
  abbrev pub Keeps : ℕ → List (List Cell) → ℕ → Option Page → Type 0
  Keeps n rows count o =
      (p' : Page) × (o ≡ some p')
      × IsPage lz4 p'
      × (is_away p' ≡ false)
      × (page_rows lz4 p' ≡ take (count - n) rows)

  keep_rows-Keeps :
      (n : ℕ) (p : Page) (r : Resident)
      → p.lines ≤ p.capacity_lines
      → IsFilled p r
      → n ≤ p.lines
      → Keeps n
          (resident_rows p r)
          p.lines
          (keep_rows lz4 n (record p { resident = some r }) (some r))
  keep_rows-Keeps n p (segmented ds) room filled le =
      let fits : length ds - n ≤ length ds = omega arith in
      (
        _,
        refl,
        record {
          within = omega (arith, filled, room);
          stored = length-take (length ds - n) ds fits;
        },
        refl,
        map-take (length ds - n) ds
            ∙ ap (λ m. take (m - n) (map (λ (d : RowDesc). d.cells) ds)) filled,
      )
  keep_rows-Keeps n p (flat cells) room filled le =
      let whole : p.lines - n + n ≡ p.lines = omega (arith, le) in
      (
        _,
        refl,
        record { within = omega (arith, room); stored = filled },
        refl,
        sym (take-rows p.cols (p.lines - n) n cells)
            ∙ ap (λ m. take (p.lines - n) (rows p.cols m cells)) whole,
      )

  -- A page at hand can be cut, be it hot or cold.
  pub restored-Keeps :
      (n : ℕ) (p : Page)
      → IsPage lz4 p
      → n ≤ p.lines
      → Keeps n
          (page_rows lz4 p)
          p.lines
          (keep_rows lz4 n (restored_page lz4 p) (restored_page lz4 p).resident)
  unfolding decode_page
  restored-Keeps n p v le = at p.resident v.stored
    where
      at :
          (r : Option Resident)
          → IsStored lz4 p r
          → let q : Page = record p { resident = r } in
            Keeps n
              (rows_at lz4 q r)
              p.lines
              (keep_rows lz4 n (restored_page lz4 q) (restored_page lz4 q).resident)
      at (some (flat cells)) h =
          keep_rows-Keeps n (record p { resident = some (flat cells) }) (flat cells) v.within h le
      at (some (segmented ds)) h =
          keep_rows-Keeps n (record p { resident = some (segmented ds) }) (segmented ds) v.within h
            le
      at none (cells, decoded, full) =
          let q : Page = record p { resident = none } in
          let kept =
            keep_rows-Keeps n (restore_with lz4 q (some cells)) (flat cells) v.within full le in
          subst
            (λ o.
              Keeps n (decoded_rows q o) p.lines
                (keep_rows lz4 n (restore_with lz4 q o) (restore_with lz4 q o).resident))
            (sym decoded) kept
