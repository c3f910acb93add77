-- ===== src/Persist/Chunks.antt =====
-- The chunks of the history file, as bytes and back: crates/mr-crabs-history/src/persist.rs.
use mr_crabs.Common.{
  ℕ, zero, suc, ◌+◌, ◌*◌, ◌≤◌, ◌<◌, ◌≡◌, refl, sym, subst, Bool, true, false, not, ◌||◌, some, List,
  [], ◌∷◌, ◌++◌, if◌then◌else◌, ltb, ◌==◌, length, length-append, append_assoc, append-nil, drop,
  arith, replicate,
}
use mr_crabs.Grid.{Cell}
use mr_crabs.Persist.Bytes.{
  ok, corrupt, too_large, le_u32, read_u32-le_u32, read_slice-append, guard-ok, ok-injective,
}
use mr_crabs.Persist.Format.{
  PersistConfig, Codec, concat, sum, cell_bytes, default_cell, widths_fit, widths, u32_max,
}
use mr_crabs.Persist.Encode.{encode_chunk}
use mr_crabs.Persist.Decode.{check_lengths, unpack, decode_chunk}
use mr_crabs.Persist.Lines.{
  AreLines, AreLines-length, concat-AreCells, sum-concat, concat_positive, read_widths-widths,
  split_lines-concat, cells_of-cell_bytes, length-cell_bytes,
}

-- What is relied on of the serialisation of the styles and of the compression of blocks: both can be
-- undone, and a compressed block is neither empty, nor twice as long as the block, nor shorter than
-- the format allows.
pub record IsFaithful {S : Type 0} (codec : Codec S) : Type 0 where
  pub json :
      (styles : List S) (b : List ℕ)
      → codec.to_vec styles ≡ some b
      → codec.from_slice b ≡ some styles
  pub undone : (b : List ℕ) → codec.decompress_into (codec.compress b) (length b) ≡ some b
  pub nonempty : (b : List ℕ) → 0 < length (codec.compress b)
  pub short : (b : List ℕ) → 0 < length b → length (codec.compress b) ≤ 2 * length b
  pub dense : (b : List ℕ) → length b ≤ 255 * length (codec.compress b) + 32

drop_all {ℓ} : {A : Type ℓ} (xs : List A) (k : ℕ) → length xs ≤ k → drop k xs ≡ []
drop_all [] zero h = refl
drop_all [] (suc k) h = refl
drop_all (x ∷ xs) zero h = absurd (omega arith)
drop_all (x ∷ xs) (suc k) h = drop_all xs k (omega arith)

length-replicate-cells : (k : ℕ) → length (cell_bytes (replicate k default_cell)) ≡ 8 * k
length-replicate-cells zero = refl
length-replicate-cells (suc k) = omega (arith, length-replicate-cells k)

counts_right : (a b s : ℕ) → 0 < a → 0 < b → s ≡ a → ((a == 0) || (b == 0) || not (a == s)) ≡ false
counts_right a b s p q e = ground arith

length-widths : (ws : List ℕ) → length (widths ws) ≡ 2 * length ws
length-widths [] = refl
length-widths (w ∷ ws) = omega (arith, length-widths ws)

module _ {S : Type 0} (codec : Codec S) where
  abbrev packed : Bool → List ℕ → List ℕ
  packed compress raw = if compress then codec.compress raw else raw

  -- The bytes of a chunk.
  abbrev pub chunk_bytes : Bool → List ℕ → List (List Cell) → List ℕ
  chunk_bytes c ws ls =
      le_u32 (length ls)
      ++ (widths ws
          ++ (le_u32 (length (concat ls))
              ++ (le_u32 (length (packed c (cell_bytes (concat ls))))
                  ++ packed c (cell_bytes (concat ls)))))

module _ {S : Type 0} (codec : Codec S) (laws : IsFaithful codec) where
  packed_positive : (c : Bool) (raw : List ℕ) → 0 < length raw → 0 < length (packed codec c raw)
  packed_positive true raw h = laws.nonempty raw
  packed_positive false raw h = h

  check-packed :
      (c : Bool) (raw : List ℕ) (k : ℕ)
      → length raw ≡ 8 * k
      → 0 < k
      → check_lengths c (8 * k) (length (packed codec c raw)) ≡ ok tt
  check-packed true raw k e h =
      let s = laws.short raw (omega (arith, e, h)) in
      let d = laws.dense raw in
      let fine : ltb (2 * (8 * k)) (length (codec.compress raw)) ≡ false = ground (arith, s, e) in
      let fine' : ltb (255 * length (codec.compress raw) + 32) (8 * k) ≡ false =
        ground (arith, d, e) in
      rw (fine, fine') refl
  check-packed false raw k e h =
      let same : (length raw == 8 * k) ≡ true = ground (arith, e) in rw same refl

  unpack-packed :
      (c : Bool) (raw : List ℕ) (k : ℕ)
      → length raw ≡ 8 * k
      → unpack codec c k (packed codec c raw) ≡ ok raw
  unpack-packed true raw k e =
      rw
        (
          ← e,
          laws.undone raw,
          drop_all (cell_bytes (replicate k default_cell)) (length raw)
              (omega (arith, length-replicate-cells k, e)),
          append-nil raw,
        )
        refl
  unpack-packed false raw k e = refl

  pub decode_chunk-chunk_bytes :
      (config : PersistConfig) (n done : ℕ) (ws : List ℕ) (ls : List (List Cell)) (rest : List ℕ)
      → AreLines n ws ls
      → 0 < length ls
      → length ls ≤ 1024
      → done + length ls ≤ config.max_lines
      → length (concat ls) < 4294967296
      → length (packed codec config.compress (cell_bytes (concat ls))) < 4294967296
      → decode_chunk codec config config.compress n done
          (chunk_bytes codec config.compress ws ls ++ rest)
        ≡ ok (ws, ls, rest)
  unfolding decode_chunk
  decode_chunk-chunk_bytes config n done ws ls rest a some_line few room cells_fit fits =
      let cells = concat ls in
      let raw = cell_bytes cells in
      let payload = packed codec config.compress raw in
      let bytes_len = length-cell_bytes cells in
      let tail = le_u32 (length cells) ++ (le_u32 (length payload) ++ payload) in
      let positive = concat_positive n ws ls a some_line in
      let filled = packed_positive config.compress raw (omega (arith, bytes_len, positive)) in
      let counted : ((length ls == 0) || ltb 1024 (length ls)) ≡ false =
        ground (arith, some_line, few) in
      let roomy : ltb config.max_lines (done + length ls) ≡ false = ground (arith, room) in
      let summed = sum-concat n ws ls a in
      let right : ((length cells == 0) || (length payload == 0) || not (length cells == sum ws))
          ≡ false =
        counts_right (length cells) (length payload) (sum ws) positive filled summed in
      rw
        (
          read_u32-le_u32 (length ls) ((widths ws ++ tail) ++ rest) (omega (arith, few)),
          counted,
          roomy,
          append_assoc (widths ws) tail rest,
          ← AreLines-length n ws ls a,
          read_widths-widths n ws ls (tail ++ rest) a,
          read_u32-le_u32 (length cells) ((le_u32 (length payload) ++ payload) ++ rest) cells_fit,
          read_u32-le_u32 (length payload) (payload ++ rest) fits,
          right,
          check-packed config.compress raw (length cells) bytes_len positive,
          read_slice-append payload rest,
          unpack-packed config.compress raw (length cells) bytes_len,
          cells_of-cell_bytes cells (concat-AreCells n ws ls a).0,
          (concat-AreCells n ws ls a).1,
          split_lines-concat n ws ls a,
        )
        refl

  length-chunk_bytes :
      (c : Bool) (encoded ws : List ℕ) (ls : List (List Cell))
      → length ws ≡ length ls
      → length (encoded ++ chunk_bytes codec c ws ls)
        ≡ length encoded + (2 * length ls + 12) + length (packed codec c (cell_bytes (concat ls)))
  length-chunk_bytes c encoded ws ls same =
      let payload = packed codec c (cell_bytes (concat ls)) in
      let tail = le_u32 (length (concat ls)) ++ (le_u32 (length payload) ++ payload) in
      omega (
        arith,
        same,
        length-widths ws,
        length-append (widths ws) tail,
        length-append encoded (chunk_bytes codec c ws ls),
      )

  pub encode_chunk-eq-ok :
      (config : PersistConfig) (encoded ws : List ℕ) (ls : List (List Cell)) {out : List ℕ}
      → length ws ≡ length ls
      → encode_chunk codec config encoded ws ls ≡ ok out
      → (length (concat ls) < 4294967296)
        × (length (packed codec config.compress (cell_bytes (concat ls))) < 4294967296)
        × (17 + length out ≤ config.max_bytes)
        × (out ≡ encoded ++ chunk_bytes codec config.compress ws ls)
  encode_chunk-eq-ok config encoded ws ls {out} same h =
      let payload = packed codec config.compress (cell_bytes (concat ls)) in
      let (_, h) = guard-ok (ltb u32_max (length ls)) too_large _ h in
      let (cells_fit, h) = guard-ok (ltb u32_max (length (concat ls))) too_large _ h in
      let (_, h) = guard-ok (not (widths_fit ws ls)) corrupt _ h in
      let (fits, h) = guard-ok (ltb u32_max (length payload)) too_large _ h in
      let (room, h) =
        guard-ok
          (ltb config.max_bytes (17 + length encoded + (2 * length ls + 12) + length payload))
          too_large _ h in
      let e : encoded ++ chunk_bytes codec config.compress ws ls ≡ out = ok-injective h in
      (
        ground (arith, cells_fit),
        ground (arith, fits),
        subst (λ o. 17 + length o ≤ config.max_bytes) e
            (ground (arith, room, length-chunk_bytes config.compress encoded ws ls same)),
        sym e,
      )
