-- ===== src/Persist/Written.antt =====
-- `HistoryFile::encode` fails on a sound file only above the limits of its sizes:
-- crates/mr-crabs-history/src/persist.rs.
use mr_crabs.Common.{
  ℕ, ◌+◌, ◌*◌, ◌≤◌, ◌≡◌, refl, ◌⊎◌, inl, inr, Bool, true, false, some, List, [], ◌∷◌, ◌++◌,
  if◌then◌else◌, ltb, ◌==◌, length, take, drop, arith,
}
use mr_crabs.Grid.{Cell}
use mr_crabs.Persist.Bytes.{Result, ok, err, ◌>>=◌, ◌>>◌, fail_if, too_large, le_u32, crc32}
use mr_crabs.Persist.Format.{
  PersistConfig, HistoryFile, Codec, concat, cell_bytes, lines_fit, widths_fit, u32_max,
  persist_chunk_lines, persist_version, validate_styles,
}
use mr_crabs.Persist.Encode.{encode_chunk, encode_chunks, encode, header, chunks, div_ceil}
use mr_crabs.Persist.Lines.{AreWidths, AreCellLines, AreLines, AreLines-of_lines_fit}
use mr_crabs.Persist.Cutting.{AreChunks, chunks-AreChunks}

-- A result, or the error that something is too large.
abbrev pub IsWritten : {A : Type 0} → Result A → Type 0
IsWritten {A} r = ((a : A) × (r ≡ ok a)) ⊎ (r ≡ err too_large)

module _ {A : Type 0} where
  guard-IsWritten :
      (b : Bool) (next : Result A) → IsWritten next → IsWritten (fail_if b too_large >> next)
  guard-IsWritten true next h = inr refl
  guard-IsWritten false next h = h

module _ {A B : Type 0} where
  bind-IsWritten :
      (first : Result A) (next : A → Result B)
      → IsWritten first
      → ((a : A) → IsWritten (next a))
      → IsWritten (first >>= next)
  bind-IsWritten (ok a) next h k = k a
  bind-IsWritten (err e) next (inl (a, h)) k = absurd cc
  bind-IsWritten (err e) next (inr h) k = inr cc

widths_fit_of_AreLines :
    (n : ℕ) (ws : List ℕ) (ls : List (List Cell)) → AreLines n ws ls → widths_fit ws ls ≡ true
widths_fit_of_AreLines n [] [] a = refl
widths_fit_of_AreLines n [] (l ∷ ls) a = refl
widths_fit_of_AreLines n (w ∷ ws) [] a = refl
widths_fit_of_AreLines n (w ∷ ws) (l ∷ ls) ((_, _, e, _, _), a) =
    ground (arith, e, widths_fit_of_AreLines n ws ls a)

module _ {S : Type 0} (codec : Codec S) where
  -- A file as `encode` takes it: of the version, with styles that are valid and can be serialised,
  -- lines of their widths with styles of the table, not too many, and all numbers in range.
  pub record IsWritable (file : HistoryFile S) (config : PersistConfig) : Type 0 where
    pub version : file.version ≡ persist_version
    pub valid : validate_styles codec file.styles ≡ ok tt
    pub few : length file.lines ≤ config.max_lines
    pub same : length file.lines ≡ length file.cols
    pub fit : lines_fit (length file.styles) file.cols file.lines ≡ true
    pub text : (json : List ℕ) × (codec.to_vec file.styles ≡ some json)
    pub wide : AreWidths file.cols
    pub sound : AreCellLines file.lines

  encode_chunk-IsWritten :
      (config : PersistConfig) (n : ℕ) (encoded ws : List ℕ) (ls : List (List Cell))
      → AreLines n ws ls
      → IsWritten (encode_chunk codec config encoded ws ls)
  encode_chunk-IsWritten config n encoded ws ls a =
      let raw = cell_bytes (concat ls) in
      let payload = if config.compress then codec.compress raw else raw in
      rw (widths_fit_of_AreLines n ws ls a) (
        guard-IsWritten (ltb u32_max (length ls)) _ (
          guard-IsWritten (ltb u32_max (length (concat ls))) _ (
            guard-IsWritten (ltb u32_max (length payload)) _ (
              guard-IsWritten
                (ltb config.max_bytes (17 + length encoded + (2 * length ls + 12) + length payload))
                _ (inl (_, refl))))))

  encode_chunks-IsWritten :
      (config : PersistConfig) (n : ℕ) (css : List (List (List Cell))) (encoded ws : List ℕ)
      → AreChunks n ws css
      → IsWritten (encode_chunks codec config encoded ws css)
  unfolding encode_chunks
  encode_chunks-IsWritten config n [] encoded ws a = inl (encoded, refl)
  encode_chunks-IsWritten config n (c ∷ css) encoded ws (_, _, a, more) =
      bind-IsWritten (encode_chunk codec config encoded (take (length c) ws) c) _
        (encode_chunk-IsWritten config n encoded (take (length c) ws) c a)
        (λ encoded'. encode_chunks-IsWritten config n css encoded' (drop (length c) ws) more)

  pub encode-IsWritten :
      (file : HistoryFile S) (config : PersistConfig)
      → IsWritable file config
      → IsWritten (encode codec file config)
  unfolding encode
  encode-IsWritten file config w =
      let n = length file.lines in
      let (json, made) = w.text in
      let lines =
        AreLines-of_lines_fit (length file.styles) file.cols file.lines w.same w.fit w.wide
          w.sound in
      let current : (file.version == persist_version) ≡ true = ground (arith, w.version) in
      let short : ltb config.max_lines n ≡ false = ground (arith, w.few) in
      let paired : (n == length file.cols) ≡ true = ground (arith, w.same) in
      rw (current, w.valid, short, paired, w.fit, made)
        (guard-IsWritten (ltb u32_max (div_ceil n persist_chunk_lines)) _ (
          guard-IsWritten (ltb u32_max (length file.styles)) _ (
            guard-IsWritten (ltb u32_max (length json)) _ (
              guard-IsWritten (ltb config.max_bytes (25 + length json)) _ (
                bind-IsWritten
                  (encode_chunks codec config
                    (le_u32 (length file.styles) ++ (le_u32 (length json) ++ json)) file.cols
                    (chunks n persist_chunk_lines file.lines))
                  (λ payload. ok (
                    header codec config (div_ceil n persist_chunk_lines) (crc32 payload)
                    ++ payload))
                  (encode_chunks-IsWritten config (length file.styles)
                    (chunks n persist_chunk_lines file.lines)
                    (le_u32 (length file.styles) ++ (le_u32 (length json) ++ json)) file.cols
                    (chunks-AreChunks (length file.styles) n file.cols file.lines (omega arith)
                      lines))
                  (λ payload. inl (_, refl)))))))
