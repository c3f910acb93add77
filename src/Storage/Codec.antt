-- ===== src/Storage/Codec.antt =====
-- Cold pages: `compress_payload`, `decode_page` and their helpers of
-- crates/mr-crabs-terminal/src/storage.rs and compress.rs. The calls of lz4_flex are a parameter.
use mr_crabs.Common.{
  ℕ, zero, suc, ◌+◌, ◌-◌, ◌*◌, ◌≡◌, Bool, true, false, not, ◌||◌, Option, some, none, List, [], ◌∷◌,
  ◌++◌, map, take, drop, length, replicate, ltb, ◌==◌, if◌then◌else◌, min, ◌>>=◌,
}
use mr_crabs.Grid.{Cell}
use mr_crabs.Persist.Bytes.{le_u16, le_u32}
use mr_crabs.Persist.Format.{cell_bytes, cells_of, default_cell}
use mr_crabs.Storage.{RowDesc, Resident, flat, segmented, Page}

-- The block format: `compress` and `decompress_into` with the number of bytes to write.
pub record Lz4 : Type 0 where
  pub compress_bytes : List ℕ → List ℕ
  pub decompress_bytes : List ℕ → ℕ → Option (List ℕ)

-- What is relied on: a block is decoded from its compressed form, for its own length.
pub record IsLossless (lz4 : Lz4) : Type 0 where
  pub undone : (b : List ℕ) → lz4.decompress_bytes (lz4.compress_bytes b) (length b) ≡ some b

-- One line of a sparse block: where its first cell stands, how many there are, and the cells.
abbrev pub sparse_line : ℕ → RowDesc → List ℕ
sparse_line cols d =
    let cells = take (min d.cols cols) d.cells in
    let first = min d.first_occupied d.cols in
    let end = min d.occupancy d.cols in
    let span = end - first in
    le_u16 first ++ (le_u16 span ++ cell_bytes (take span (drop first cells)))

abbrev pub sparse_lines : ℕ → List RowDesc → List ℕ
sparse_lines cols [] = []
sparse_lines cols (d ∷ ds) = sparse_line cols d ++ sparse_lines cols ds

-- `u16::from_le_bytes` and `u32::from_le_bytes` at the front of bytes, with the bytes behind.
unfoldable pub take_u16 : List ℕ → Option (ℕ × List ℕ)
take_u16 (a ∷ b ∷ rest) = some (a + 256 * b, rest)
take_u16 _ = none

unfoldable pub take_u32 : List ℕ → Option (ℕ × List ℕ)
take_u32 (a ∷ b ∷ c ∷ d ∷ rest) = some (a + 256 * b + 65536 * c + 16777216 * d, rest)
take_u32 _ = none

-- A line of `cols` blank cells with the cells written from `first` on.
abbrev pub sparse_row : ℕ → ℕ → List Cell → List Cell
sparse_row cols first cells =
    replicate first default_cell
    ++ (cells ++ replicate (cols - (first + length cells)) default_cell)

-- `if b { return false }`.
abbrev pub refuse_if : Bool → Option (Unit {0})
refuse_if b = if b then none else some tt

infixl 5 ◌>>◌
abbrev pub ◌>>◌ {ℓ} : {A : Type ℓ} → Option (Unit {0}) → Option A → Option A
first >> next = first >>= λ _. next

-- The lines of a sparse block, one behind another; all the bytes have to be used.
unfoldable pub decode_sparse : ℕ → ℕ → List ℕ → Option (List Cell)
unfolding take_u16
decode_sparse cols zero [] = some []
decode_sparse cols zero (_ ∷ _) = none
decode_sparse cols (suc n) encoded = do
  (first, rest) ← take_u16 encoded
  (span, body) ← take_u16 rest
  refuse_if (ltb cols (first + span) || ltb (length body) (span * 8))
  cells ← decode_sparse cols n (drop (span * 8) body)
  some (sparse_row cols first (cells_of (take (span * 8) body)) ++ cells)

module _ (lz4 : Lz4) where
  -- The block, whether it is sparse, and the rows to use again.
  unfoldable pub compress_payload : Resident → ℕ → List ℕ × Bool × List (List Cell)
  compress_payload (flat cells) cols = (lz4.compress_bytes (cell_bytes cells), false, [])
  compress_payload (segmented ds) cols =
      let encoded = sparse_lines cols ds in
      (le_u32 (length encoded) ++ lz4.compress_bytes encoded, true, map (λ d. d.cells) ds)

  unfoldable pub decode_block : Bool → ℕ → ℕ → ℕ → List ℕ → Option (List Cell)
  unfolding decode_sparse take_u32
  decode_block false cols lines capacity compressed = do
    out ← lz4.decompress_bytes compressed (8 * (capacity * cols))
    refuse_if (not (length out == 8 * (capacity * cols)))
    some (cells_of out)
  decode_block true cols lines capacity compressed = do
    (encoded_len, block) ← take_u32 compressed
    encoded ← lz4.decompress_bytes block encoded_len
    refuse_if (not (length encoded == encoded_len))
    cells ← decode_sparse cols lines encoded
    some (cells ++ replicate ((capacity - lines) * cols) default_cell)

  -- The cells of a cold page; its combining marks are `page.combining`.
  unfoldable pub decode_page : Page → Option (List Cell)
  decode_page p = p.compressed >>= λ compressed.
      decode_block p.sparse p.cols p.lines p.capacity_lines compressed
