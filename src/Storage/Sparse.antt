-- ===== src/Storage/Sparse.antt =====
-- The lines of a sparse block: `compress_payload` and `decode_page` of
-- crates/mr-crabs-terminal/src/storage.rs.
use mr_crabs.Common.{
  ℕ, zero, suc, ◌+◌, ◌-◌, ◌*◌, ◌≤◌, ◌<◌, ◌≡◌, refl, ap, ap₂, sym, ◌∙◌, false, some, List, [], ◌∷◌,
  ◌++◌, map, take, drop, length, length-append, replicate, ltb, min, ◌>>=◌, arith,
}
use mr_crabs.Grid.{Cell}
use mr_crabs.Persist.Bytes.{le_u16, le_u16_whole, take-append, drop-append}
use mr_crabs.Persist.Cutting.{take-drop-append}
use mr_crabs.Persist.Format.{cell_bytes, default_cell, concat}
use mr_crabs.Persist.Lines.{AreCells, cells_of-cell_bytes, length-cell_bytes}
use mr_crabs.Storage.{RowDesc, Resident, flat, segmented}
use mr_crabs.Storage.Codec.{sparse_line, sparse_lines, sparse_row, take_u16, decode_sparse}
use mr_crabs.Storage.Rows.{take_all, length-drop, length-take}

abbrev first_of : RowDesc → ℕ
first_of d = min d.first_occupied d.cols

abbrev span_of : RowDesc → ℕ
span_of d = min d.occupancy d.cols - first_of d

-- A row of the page's width, with cells in range, blank outside what it says it occupies.
pub record IsRow (cols : ℕ) (d : RowDesc) : Type 0 where
  pub wide : d.cols ≡ cols
  pub long : length d.cells ≡ cols
  pub in_range : AreCells d.cells
  pub blank_before : take (first_of d) d.cells ≡ replicate (first_of d) default_cell
  pub blank_behind :
      drop (span_of d) (drop (first_of d) d.cells)
      ≡ replicate (cols - (first_of d + span_of d)) default_cell

abbrev pub AreRows : ℕ → List RowDesc → Type 0
AreRows cols [] = Unit
AreRows cols (d ∷ ds) = IsRow cols d × AreRows cols ds

-- What a page can hand to the worker.
abbrev pub IsPayload : ℕ → Resident → Type 0
IsPayload cols (flat cells) = AreCells cells
IsPayload cols (segmented ds) =
    (cols < 65536) × AreRows cols ds × (length (sparse_lines cols ds) < 4294967296)

AreCells-take : (n : ℕ) (cs : List Cell) → AreCells cs → AreCells (take n cs)
AreCells-take zero cs h = tt
AreCells-take (suc n) [] h = tt
AreCells-take (suc n) (c ∷ cs) h = (h.0, AreCells-take n cs h.1)

AreCells-drop : (n : ℕ) (cs : List Cell) → AreCells cs → AreCells (drop n cs)
AreCells-drop zero cs h = h
AreCells-drop (suc n) [] h = tt
AreCells-drop (suc n) (c ∷ cs) h = AreCells-drop n cs h.1

module _ (cols : ℕ) (d : RowDesc) (v : IsRow cols d) where
  abbrev middle : List Cell
  middle = take (span_of d) (drop (first_of d) d.cells)

  fits : first_of d + span_of d ≤ cols
  fits = ground (arith, v.wide)

  length-middle : length middle ≡ span_of d
  length-middle =
      length-take (span_of d) (drop (first_of d) d.cells)
        (omega (arith, fits, length-drop (first_of d) d.cells, v.long))

  -- The row from its middle.
  sparse_row-middle : sparse_row cols (first_of d) middle ≡ d.cells
  sparse_row-middle =
      ap
        (λ k.
          replicate (first_of d) default_cell
          ++ (middle ++ replicate (cols - (first_of d + k)) default_cell))
        length-middle
      ∙ ap₂ (λ xs ys. xs ++ (middle ++ ys)) (sym v.blank_before) (sym v.blank_behind)
      ∙ ap (λ xs. take (first_of d) d.cells ++ xs)
          (take-drop-append (span_of d) (drop (first_of d) d.cells))
      ∙ take-drop-append (first_of d) d.cells

  sparse_line_lem :
      sparse_line cols d ≡ le_u16 (first_of d) ++ (le_u16 (span_of d) ++ cell_bytes middle)
  sparse_line_lem =
      ap
        (λ cs.
          le_u16 (first_of d)
          ++ (le_u16 (span_of d) ++ cell_bytes (take (span_of d) (drop (first_of d) cs))))
        (take_all (min d.cols cols) d.cells (ground (arith, v.wide, v.long)))

-- One line of a sparse block is read back.
decode_sparse-line :
    (cols n f k : ℕ) (mid : List Cell) (rest : List ℕ)
    → cols < 65536
    → f + k ≤ cols
    → length mid ≡ k
    → AreCells mid
    → decode_sparse cols (suc n) ((le_u16 f ++ (le_u16 k ++ cell_bytes mid)) ++ rest)
      ≡ (decode_sparse cols n rest >>= λ cells. some (sparse_row cols f mid ++ cells))
unfolding decode_sparse take_u16
decode_sparse-line cols n f k mid rest small fit long v =
    let bytes : k * 8 ≡ length (cell_bytes mid) = omega (arith, length-cell_bytes mid, long) in
    let inside : ltb cols (f + k) ≡ false = ground (arith, fit) in
    let there : ltb (length (cell_bytes mid ++ rest)) (length (cell_bytes mid)) ≡ false =
      ground (arith, length-append (cell_bytes mid) rest) in
    rw
      (
        le_u16_whole f (omega (arith, small, fit)),
        le_u16_whole k (omega (arith, small, fit)),
        bytes,
        inside,
        there,
        take-append (cell_bytes mid) rest,
        drop-append (cell_bytes mid) rest,
        cells_of-cell_bytes mid v,
      )
      refl

pub decode_sparse-lines :
    (cols : ℕ) (ds : List RowDesc)
    → cols < 65536
    → AreRows cols ds
    → decode_sparse cols (length ds) (sparse_lines cols ds)
      ≡ some (concat (map (λ (d : RowDesc). d.cells) ds))
unfolding decode_sparse
decode_sparse-lines cols [] small v = refl
decode_sparse-lines cols (d ∷ ds) small (v, vs) =
    let mid = middle cols d v in
    ap (λ bytes. decode_sparse cols (suc (length ds)) (bytes ++ sparse_lines cols ds))
      (sparse_line_lem cols d v)
    ∙ decode_sparse-line cols (length ds) (first_of d) (span_of d) mid (sparse_lines cols ds) small
        (fits cols d v) (length-middle cols d v)
        (AreCells-take (span_of d) _ (AreCells-drop (first_of d) d.cells v.in_range))
    ∙ ap (λ o. o >>= λ cells. some (sparse_row cols (first_of d) mid ++ cells))
        (decode_sparse-lines cols ds small vs)
    ∙ ap (λ row. some (row ++ concat (map (λ (d : RowDesc). d.cells) ds)))
        (sparse_row-middle cols d v)
