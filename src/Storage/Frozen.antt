-- ===== src/Storage/Frozen.antt =====
-- Compression loses no line: `compress_payload` and `decode_page` of
-- crates/mr-crabs-terminal/src/storage.rs.
use mr_crabs.Common.{
  ℕ, ◌+◌, ◌-◌, ◌*◌, ◌≤◌, ◌≡◌, refl, ap, ap₂, sym, subst, ◌∙◌, true, false, some, List, [], ◌∷◌,
  ◌++◌, map, length, length-append, length-replicate, replicate, arith,
}
use mr_crabs.Grid.{Cell}
use mr_crabs.Persist.Bytes.{le_u32_whole}
use mr_crabs.Persist.Format.{cell_bytes, default_cell, concat}
use mr_crabs.Persist.Lines.{AreCells, cells_of-cell_bytes, length-cell_bytes}
use mr_crabs.Storage.{RowDesc, Resident, flat, segmented, Page, rows}
use mr_crabs.Storage.Codec.{
  Lz4, IsLossless, sparse_lines, take_u32, decode_block, decode_page, compress_payload,
}
use mr_crabs.Storage.Pages.{packed, land, IsPage, IsFilled, page_rows, resident_rows}
use mr_crabs.Storage.Rows.{length-cells, eq_self, AllLong, rows-concat, add_mul, suc_mul}
use mr_crabs.Storage.Sparse.{AreRows, IsPayload, decode_sparse-lines}

length-concat :
    (cols : ℕ) (ls : List (List Cell)) → AllLong cols ls → length (concat ls) ≡ length ls * cols
length-concat cols [] h = omega arith
length-concat cols (l ∷ ls) h =
    length-append l (concat ls)
    ∙ ap₂ (λ m n. m + n) h.0 (length-concat cols ls h.1)
    ∙ sym (suc_mul (length ls) cols)

AreRows-AllLong :
    (cols : ℕ) (ds : List RowDesc)
    → AreRows cols ds
    → AllLong cols (map (λ (d : RowDesc). d.cells) ds)
AreRows-AllLong cols [] v = tt
AreRows-AllLong cols (d ∷ ds) v = (v.0.long, AreRows-AllLong cols ds v.1)

-- The page when the worker is done with its lines.
abbrev pub landing : Lz4 → Page → Resident → Page
landing lz4 p r =
    land (packed (compress_payload lz4 r p.cols).0 (compress_payload lz4 r p.cols).1) p

module _ (lz4 : Lz4) (sound : IsLossless lz4) where
  decode_block-flat :
      (cols lines capacity : ℕ) (cells : List Cell)
      → length cells ≡ capacity * cols
      → AreCells cells
      → decode_block lz4 false cols lines capacity (compress_payload lz4 (flat cells) cols).0
        ≡ some cells
  unfolding decode_block compress_payload
  decode_block-flat cols lines capacity cells long v =
      let size : 8 * (capacity * cols) ≡ length (cell_bytes cells) =
        omega (arith, length-cell_bytes cells, long) in
      rw
        (
          size,
          sound.undone (cell_bytes cells),
          eq_self (length (cell_bytes cells)),
          cells_of-cell_bytes cells v,
        )
        refl

  decode_block-segmented :
      (cols capacity : ℕ) (ds : List RowDesc)
      → IsPayload cols (segmented ds)
      → decode_block lz4 true cols (length ds) capacity (compress_payload lz4 (segmented ds) cols).0
        ≡ some (
            concat (map (λ (d : RowDesc). d.cells) ds)
            ++ replicate ((capacity - length ds) * cols) default_cell)
  unfolding decode_block compress_payload take_u32
  decode_block-segmented cols capacity ds (small, rows, short) =
      let encoded = sparse_lines cols ds in
      rw
        (
          le_u32_whole (length encoded) short,
          sound.undone encoded,
          eq_self (length encoded),
          decode_sparse-lines cols ds small rows,
        )
        refl

  -- With a compression that can be undone: a page whose lines fit its room, with a buffer of that
  -- room or with as many rows as lines, and with lines that can be packed, has the lines that it had
  -- when the worker has packed them, and they can be decoded.
  pub packed-IsPage :
      (p : Page) (r : Resident)
      → p.lines ≤ p.capacity_lines
      → IsFilled p r
      → IsPayload p.cols r
      → IsPage lz4 (landing lz4 p r) × (page_rows lz4 (landing lz4 p r) ≡ resident_rows p r)
  unfolding decode_page compress_payload
  packed-IsPage p (flat cells) room long v =
      let e = decode_block-flat p.cols p.lines p.capacity_lines cells long v in
      (record { within = room; stored = (cells, e, long) }, rw e refl)
  packed-IsPage p (segmented ds) room long v =
      let ls = map (λ (d : RowDesc). d.cells) ds in
      let wide = AreRows-AllLong p.cols ds v.1 in
      let count : length ls ≡ p.lines = length-cells ds ∙ long in
      let filler = replicate ((p.capacity_lines - p.lines) * p.cols) default_cell in
      let e =
        subst
          (λ n.
            decode_block lz4 true p.cols n p.capacity_lines
              (compress_payload lz4 (segmented ds) p.cols).0
            ≡ some (concat ls ++ replicate ((p.capacity_lines - n) * p.cols) default_cell))
          long (decode_block-segmented p.cols p.capacity_lines ds v) in
      let full : length (concat ls ++ filler) ≡ p.capacity_lines * p.cols =
        length-append (concat ls) filler
        ∙ ap₂ (λ m n. m + n) (length-concat p.cols ls wide ∙ ap (λ n. n * p.cols) count)
            (length-replicate ((p.capacity_lines - p.lines) * p.cols) default_cell)
        ∙ sym (add_mul p.lines (p.capacity_lines - p.lines) p.cols)
        ∙ ap (λ n. n * p.cols) (omega (arith, room)) in
      (
        record { within = room; stored = (concat ls ++ filler, e, full) },
        rw e (
            ap (λ n. rows p.cols n (concat ls ++ filler)) (sym count)
            ∙ rows-concat p.cols ls filler wide),
      )
