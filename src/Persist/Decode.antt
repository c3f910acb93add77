-- ===== src/Persist/Decode.antt =====
-- `HistoryFile::decode` of crates/mr-crabs-history/src/persist.rs.
use mr_crabs.Common.{
  ℕ, zero, suc, ◌+◌, ◌*◌, Bool, true, false, not, ◌||◌, List, [], ◌∷◌, ◌++◌, ltb, ◌==◌, ◌%◌, length,
  take, drop, replicate,
}
use mr_crabs.Apc.{same_bytes}
use mr_crabs.Grid.{Cell}
use mr_crabs.Persist.Bytes.{
  Result, ok, ◌>>=◌, ◌>>◌, fail_if, too_large, too_many_lines, bad_magic, corrupt, truncated,
  version_mismatch, read_u16, read_u32, read_slice, crc32,
}
use mr_crabs.Persist.Format.{
  persist_magic, persist_version, persist_chunk_lines, PersistConfig, HistoryFile, Codec,
  or_corrupt, is_nil, sum, cell_bytes, cells_of, default_cell, styles_in, widths, validate_styles,
}

-- The widths of the lines of a chunk.
unfoldable pub read_widths : ℕ → List ℕ → Result (List ℕ × List ℕ)
read_widths zero bytes = ok ([], bytes)
read_widths (suc n) bytes = do
  (width, rest) ← read_u16 bytes
  (widths, rest') ← read_widths n rest
  ok (width ∷ widths, rest')

-- The cells cut into lines, with none left.
unfoldable pub split_lines : List ℕ → List Cell → Result (List (List Cell))
split_lines [] cells = do fail_if (not (is_nil cells)) corrupt; ok []
split_lines (width ∷ widths) cells = do
  fail_if (ltb (length cells) width) corrupt
  lines ← split_lines widths (drop width cells)
  ok (take width cells ∷ lines)

-- The limits on the length of a payload, before it is read.
abbrev pub check_lengths : Bool → ℕ → ℕ → Result Unit
check_lengths true cell_bytes_len payload_len = do
  fail_if (ltb (2 * cell_bytes_len) payload_len) corrupt
  fail_if (ltb (255 * payload_len + 32) cell_bytes_len) corrupt
check_lengths false cell_bytes_len payload_len =
    fail_if (not (payload_len == cell_bytes_len)) corrupt

module _ {S : Type 0} (codec : Codec S) where
  -- The bytes of the cells, which are default cells where nothing is written.
  abbrev pub unpack : Bool → ℕ → List ℕ → Result (List ℕ)
  unpack true cell_count payload = do
    written ← or_corrupt (codec.decompress_into payload (8 * cell_count))
    ok (written ++ drop (length written) (cell_bytes (replicate cell_count default_cell)))
  unpack false cell_count payload = ok payload

  -- `done` is the number of lines before the chunk.
  unfoldable pub decode_chunk :
      PersistConfig → Bool → ℕ → ℕ → List ℕ → Result (List ℕ × List (List Cell) × List ℕ)
  decode_chunk config compressed styles done bytes = do
    (line_count, bytes) ← read_u32 bytes
    fail_if ((line_count == 0) || ltb persist_chunk_lines line_count) corrupt
    fail_if (ltb config.max_lines (done + line_count)) too_many_lines
    (cols, bytes) ← read_widths line_count bytes
    (cell_count, bytes) ← read_u32 bytes
    (payload_len, bytes) ← read_u32 bytes
    fail_if ((cell_count == 0) || (payload_len == 0) || not (cell_count == sum cols)) corrupt
    check_lengths compressed (8 * cell_count) payload_len
    (payload, bytes) ← read_slice payload_len bytes
    out ← unpack compressed cell_count payload
    let cells = cells_of out
    fail_if (not (styles_in styles cells)) corrupt
    lines ← split_lines cols cells
    ok (cols, lines, bytes)

  -- The loop over the chunks, with the widths and the lines so far.
  unfoldable pub decode_chunks :
      PersistConfig
      → Bool
      → ℕ
      → ℕ
      → List ℕ
      → List (List Cell)
      → List ℕ
      → Result (List ℕ × List (List Cell) × List ℕ)
  decode_chunks config compressed styles zero cols lines bytes = ok (cols, lines, bytes)
  decode_chunks config compressed styles (suc n) cols lines bytes = do
    (cols', lines', rest) ← decode_chunk config compressed styles (length cols) bytes
    decode_chunks config compressed styles n (cols ++ cols') (lines ++ lines') rest

  -- What stands behind the header: the style table and the chunks.
  unfoldable pub decode_payload :
      PersistConfig → Bool → ℕ → List ℕ → Result (List S × List ℕ × List (List Cell))
  decode_payload config compressed chunk_count bytes = do
    (style_count, bytes) ← read_u32 bytes
    fail_if ((style_count == 0) || ltb 65536 style_count) corrupt
    (json_len, bytes) ← read_u32 bytes
    (style_json, bytes) ← read_slice json_len bytes
    styles ← or_corrupt (codec.from_slice style_json)
    fail_if (not (length styles == style_count)) corrupt
    validate_styles codec styles
    (cols, lines, bytes) ← decode_chunks config compressed (length styles) chunk_count [] [] bytes
    fail_if (not (is_nil bytes)) corrupt
    ok (styles, cols, lines)

  -- The number at a place of the header, which is not shorter than 17 bytes.
  abbrev pub word_at : ℕ → List ℕ → Result ℕ
  word_at i bytes = do (n, _) ← read_u32 (drop i bytes); ok n

  abbrev pub byte_at : ℕ → List ℕ → ℕ
  byte_at i bytes = elim (drop i bytes) [ [] ↦ 0 | b ∷ _ ↦ b ]

  unfoldable pub decode : List ℕ → PersistConfig → Result (HistoryFile S)
  decode bytes config = do
    let compressed = byte_at 8 bytes % 2 == 1
    fail_if (ltb config.max_bytes (length bytes)) too_large
    fail_if (ltb (length bytes) 17) truncated
    fail_if (not (same_bytes (take 4 bytes) persist_magic)) bad_magic
    version ← word_at 4 bytes
    fail_if (not (version == persist_version)) (version_mismatch version)
    chunk_count ← word_at 9 bytes
    expected_crc ← word_at 13 bytes
    (styles, cols, lines) ← decode_payload config compressed chunk_count (drop 17 bytes)
    fail_if (not (crc32 (drop 17 bytes) == expected_crc)) corrupt
    ok (record { version = persist_version; styles = styles; cols = cols; lines = lines })
