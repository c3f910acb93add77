-- ===== src/Persist/Encode.antt =====
-- `HistoryFile::encode` of crates/mr-crabs-history/src/persist.rs.
use mr_crabs.Common.{
  ℕ, zero, suc, ◌+◌, ◌-◌, ◌*◌, ◌/◌, not, List, [], ◌∷◌, ◌++◌, if◌then◌else◌, ltb, ◌==◌, length,
  take, drop,
}
use mr_crabs.Grid.{Cell}
use mr_crabs.Persist.Bytes.{
  Result, ok, ◌>>=◌, ◌>>◌, fail_if, too_large, too_many_lines, corrupt, version_mismatch, le_u32,
  crc32,
}
use mr_crabs.Persist.Format.{
  persist_magic, persist_version, persist_chunk_lines, u32_max, PersistConfig, HistoryFile, Codec,
  or_corrupt, concat, cell_bytes, lines_fit, widths_fit, widths, validate_styles,
}

-- `lines.chunks(n)`; the fuel is the number of lines.
abbrev pub chunks {ℓ} : {A : Type ℓ} → ℕ → ℕ → List A → List (List A)
chunks zero n xs = []
chunks (suc fuel) n [] = []
chunks (suc fuel) n (x ∷ xs) = take n (x ∷ xs) ∷ chunks fuel n (drop n (x ∷ xs))

abbrev pub div_ceil : ℕ → ℕ → ℕ
div_ceil a n = (a + (n - 1)) / n

module _ {S : Type 0} (codec : Codec S) where
  -- `encoded` is what stands behind the header so far.
  abbrev pub encode_chunk : PersistConfig → List ℕ → List ℕ → List (List Cell) → Result (List ℕ)
  encode_chunk config encoded cols lines = do
    let cells = concat lines
    let raw = cell_bytes cells
    let payload = if config.compress then codec.compress raw else raw
    fail_if (ltb u32_max (length lines)) too_large
    fail_if (ltb u32_max (length cells)) too_large
    fail_if (not (widths_fit cols lines)) corrupt
    fail_if (ltb u32_max (length payload)) too_large
    fail_if (ltb config.max_bytes (17 + length encoded + (2 * length lines + 12) + length payload))
        too_large
    ok (
        encoded
        ++ (le_u32 (length lines)
            ++ (widths cols ++ (le_u32 (length cells) ++ (le_u32 (length payload) ++ payload)))))

  -- The widths of a chunk are the next ones.
  unfoldable pub encode_chunks :
      PersistConfig → List ℕ → List ℕ → List (List (List Cell)) → Result (List ℕ)
  encode_chunks config encoded cols [] = ok encoded
  encode_chunks config encoded cols (chunk ∷ rest) = do
    encoded' ← encode_chunk config encoded (take (length chunk) cols) chunk
    encode_chunks config encoded' (drop (length chunk) cols) rest

  abbrev pub header : PersistConfig → ℕ → ℕ → List ℕ
  header config chunk_count crc =
      persist_magic
      ++ (le_u32 persist_version
          ++ ((if config.compress then 1 else 0) ∷ (le_u32 chunk_count ++ le_u32 crc)))

  unfoldable pub encode : HistoryFile S → PersistConfig → Result (List ℕ)
  encode file config = do
    let count = div_ceil (length file.lines) persist_chunk_lines
    fail_if (not (file.version == persist_version)) (version_mismatch file.version)
    validate_styles codec file.styles
    fail_if (ltb config.max_lines (length file.lines)) too_many_lines
    fail_if (not (length file.lines == length file.cols)) corrupt
    fail_if (not (lines_fit (length file.styles) file.cols file.lines)) corrupt
    fail_if (ltb u32_max count) too_large
    fail_if (ltb u32_max (length file.styles)) too_large
    style_json ← or_corrupt (codec.to_vec file.styles)
    fail_if (ltb u32_max (length style_json)) too_large
    fail_if (ltb config.max_bytes (25 + length style_json)) too_large
    payload ←
        encode_chunks config
          (le_u32 (length file.styles) ++ (le_u32 (length style_json) ++ style_json)) file.cols
          (chunks (length file.lines) persist_chunk_lines file.lines)
    ok (header config count (crc32 payload) ++ payload)
