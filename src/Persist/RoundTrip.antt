-- ===== src/Persist/RoundTrip.antt =====
-- What `HistoryFile::encode` writes, `HistoryFile::decode` reads:
-- crates/mr-crabs-history/src/persist.rs.
use mr_crabs.Common.{
  ◌⊎◌, inl, inr, ℕ, ◌+◌, ◌%◌, ◌≤◌, ◌<◌, ◌≡◌, refl, sym, ap, ap₂, ◌∙◌, Bool, true, false, not, ◌||◌,
  Option, none, some, List, [], ◌∷◌, ◌++◌, if◌then◌else◌, ltb, ◌==◌, length, append-nil, arith,
  ==_iff,
}
use mr_crabs.Grid.{Cell}
use mr_crabs.Persist.Bytes.{
  err, too_large, ok, ◌>>=◌, ◌>>◌, fail_if, corrupt, le_u32, crc32, crc32_bound, read_u32-le_u32,
  read_slice-append, guard-ok, fail_if-passes, seq-ok, ok-injective, bind-ok,
}
use mr_crabs.Persist.Format.{
  PersistConfig, HistoryFile, Codec, lines_fit, u32_max, or_corrupt, persist_chunk_lines,
  persist_version, validate_styles,
}
use mr_crabs.Persist.Encode.{encode_chunks, encode, header, chunks, div_ceil}
use mr_crabs.Persist.Decode.{decode_chunks, decode_payload, decode}
use mr_crabs.Persist.Lines.{AreWidths, AreCellLines, AreLines-of_lines_fit}
use mr_crabs.Persist.Chunks.{IsFaithful}
use mr_crabs.Persist.Cutting.{chunks-AreChunks, join-chunks, length-chunks}
use mr_crabs.Persist.Written.{IsWritable, encode-IsWritten}
use mr_crabs.Persist.Loop.{encode_chunks-Decodes}

flag : (b : Bool) → ((if b then 1 else 0) % 2 == 1) ≡ b
flag true = refl
flag false = refl

module _ {S : Type 0} (codec : Codec S) where
  decode-header :
      (config : PersistConfig) (count crc : ℕ) (payload : List ℕ)
      → count < 4294967296
      → crc < 4294967296
      → 17 + length payload ≤ config.max_bytes
      → decode codec (header codec config count crc ++ payload) config ≡ (
          decode_payload codec config config.compress count payload >>= λ (styles, cols, lines).
          fail_if (not (crc32 payload == crc)) corrupt
          >> ok (record { version = persist_version; styles = styles; cols = cols; lines = lines }))
  unfolding decode
  decode-header config count crc payload c k room =
      let whole = header codec config count crc ++ payload in
      let fits : ltb config.max_bytes (length whole) ≡ false = ground (arith, room) in
      let long : ltb (length whole) 17 ≡ false = ground arith in
      let tail = le_u32 count ++ (le_u32 crc ++ payload) in
      rw
        (
          fits,
          long,
          read_u32-le_u32 persist_version ((if config.compress then 1 else 0) ∷ tail) (omega arith),
          read_u32-le_u32 count (le_u32 crc ++ payload) c,
          read_u32-le_u32 crc payload k,
          flag config.compress,
        )
        refl

  validate_styles-length :
      (styles : List S)
      → validate_styles codec styles ≡ ok tt
      → ((length styles == 0) || ltb 65536 (length styles)) ≡ false
  validate_styles-length [] h = cc
  validate_styles-length (s ∷ styles) h =
      let c =
        fail_if-passes (ltb 65536 (length (s ∷ styles)) || not (codec.is_default s)) corrupt h in
      ground (arith, c)

  decode_payload-encoded :
      (config : PersistConfig) (count : ℕ) (styles : List S) (json body ws : List ℕ)
      (ls : List (List Cell))
      → validate_styles codec styles ≡ ok tt
      → length json < 4294967296
      → codec.from_slice json ≡ some styles
      → decode_chunks codec config config.compress (length styles) count [] [] body
        ≡ ok (ws, ls, [])
      → decode_payload codec config config.compress count
          ((le_u32 (length styles) ++ (le_u32 (length json) ++ json)) ++ body)
        ≡ ok (styles, ws, ls)
  unfolding decode_payload
  decode_payload-encoded config count styles json body ws ls valid fits back reads =
      let sized = validate_styles-length styles valid in
      let same : (length styles == length styles) ≡ true = ground arith in
      rw
        (
          read_u32-le_u32 (length styles) ((le_u32 (length json) ++ json) ++ body)
              (ground (arith, sized)),
          sized,
          read_u32-le_u32 (length json) (json ++ body) fits,
          read_slice-append json body,
          back,
          same,
          valid,
          reads,
        )
        refl

  or_corrupt-eq-ok : (o : Option (List ℕ)) {b : List ℕ} → or_corrupt o ≡ ok b → o ≡ some b
  or_corrupt-eq-ok none h = cc
  or_corrupt-eq-ok (some b) h = ap some (ok-injective h)

  -- What a successful encoding tells.
  record Encoded (file : HistoryFile S) (config : PersistConfig) (bytes : List ℕ) : Type 0 where
    json : List ℕ
    payload : List ℕ
    version : file.version ≡ persist_version
    valid : validate_styles codec file.styles ≡ ok tt
    few : length file.lines ≤ config.max_lines
    same : length file.lines ≡ length file.cols
    fit : lines_fit (length file.styles) file.cols file.lines ≡ true
    counted : div_ceil (length file.lines) persist_chunk_lines < 4294967296
    made : codec.to_vec file.styles ≡ some json
    json_fits : length json < 4294967296
    room : 25 + length json ≤ config.max_bytes
    packs :
        encode_chunks codec config
          (le_u32 (length file.styles) ++ (le_u32 (length json) ++ json))
          file.cols
          (chunks (length file.lines) persist_chunk_lines file.lines)
        ≡ ok payload
    whole :
        header codec config (div_ceil (length file.lines) persist_chunk_lines) (crc32 payload)
          ++ payload
        ≡ bytes

  encode-Encoded :
      (file : HistoryFile S) (config : PersistConfig) {bytes : List ℕ}
      → encode codec file config ≡ ok bytes
      → Encoded file config bytes
  unfolding encode
  encode-Encoded file config {bytes} h =
      let n = length file.lines in
      let (versions, h) = guard-ok (not (file.version == persist_version)) _ _ h in
      let (styles_valid, h) = seq-ok (validate_styles codec file.styles) _ h in
      let (short, h) = guard-ok (ltb config.max_lines n) _ _ h in
      let (paired, h) = guard-ok (not (n == length file.cols)) _ _ h in
      let (fits, h) = guard-ok (not (lines_fit (length file.styles) file.cols file.lines)) _ _ h in
      let (numbered, h) = guard-ok (ltb u32_max (div_ceil n persist_chunk_lines)) _ _ h in
      let (_, h) = guard-ok (ltb u32_max (length file.styles)) _ _ h in
      let (text, text_made, h) = bind-ok (or_corrupt (codec.to_vec file.styles)) _ h in
      let (text_fits, h) = guard-ok (ltb u32_max (length text)) _ _ h in
      let (space, h) = guard-ok (ltb config.max_bytes (25 + length text)) _ _ h in
      let (packed, packing, h) = bind-ok (encode_chunks codec config _ _ _) _ h in
      record {
        json = text;
        payload = packed;
        version = ground (arith, versions);
        valid = styles_valid;
        few = ground (arith, short);
        same = ground (arith, paired);
        fit = ground (arith, fits);
        counted = ground (arith, numbered);
        made = or_corrupt-eq-ok (codec.to_vec file.styles) text_made;
        json_fits = ground (arith, text_fits);
        room = ground (arith, space);
        packs = packing;
        whole = ok-injective h;
      }

  -- The payload of an encoded file gives the file back, and the whole is within the size limit.
  decode_payload-Encoded :
      (laws : IsFaithful codec) (file : HistoryFile S) (config : PersistConfig) {bytes : List ℕ}
      (e : Encoded file config bytes)
      → AreWidths file.cols
      → AreCellLines file.lines
      → (17 + length e.payload ≤ config.max_bytes)
        × (decode_payload codec config config.compress
              (div_ceil (length file.lines) persist_chunk_lines)
              e.payload
            ≡ ok (file.styles, file.cols, file.lines))
  decode_payload-Encoded laws file config e wide sound =
      let n = length file.lines in
      let css = chunks n persist_chunk_lines file.lines in
      let lines =
        AreLines-of_lines_fit (length file.styles) file.cols file.lines e.same e.fit wide sound in
      let (body, split, room', reads) =
        encode_chunks-Decodes codec laws config (length file.styles) css file.cols
          (le_u32 (length file.styles) ++ (le_u32 (length e.json) ++ e.json))
          (chunks-AreChunks (length file.styles) n file.cols file.lines (omega arith) lines) e.packs
          (omega (arith, e.room)) in
      let joined = join-chunks n 1023 file.lines (omega arith) in
      let counts = length-chunks n file.lines (omega arith) in
      let back : decode_chunks codec config config.compress (length file.styles)
            (div_ceil n persist_chunk_lines) [] [] body
          ≡ ok (file.cols, file.lines, []) =
        ap₂ (λ k b. decode_chunks codec config config.compress (length file.styles) k [] [] b)
          (sym counts) (sym (append-nil body))
        ∙ (reads [] [] [] (omega (arith, e.few, ap length joined))
            ∙ ap (λ ls. ok (file.cols, ls, [])) joined) in
      (
        room',
        ap (λ p. decode_payload codec config config.compress (div_ceil n persist_chunk_lines) p)
              split
            ∙ decode_payload-encoded config (div_ceil n persist_chunk_lines) file.styles e.json body
                file.cols file.lines e.valid e.json_fits (laws.json file.styles e.json e.made) back,
      )

  decode_of_encode :
      (laws : IsFaithful codec) (file : HistoryFile S) (config : PersistConfig) {bytes : List ℕ}
      → AreWidths file.cols
      → AreCellLines file.lines
      → encode codec file config ≡ ok bytes
      → decode codec bytes config ≡ ok file
  decode_of_encode laws file config {bytes} wide sound h =
      let e = encode-Encoded file config h in
      let count = div_ceil (length file.lines) persist_chunk_lines in
      let (room, reads) = decode_payload-Encoded laws file config e wide sound in
      let same : (crc32 e.payload == crc32 e.payload) ≡ true =
        (==_iff (crc32 e.payload) (crc32 e.payload)).1 refl in
      ap (λ b. decode codec b config) (sym e.whole)
      ∙ (decode-header config count (crc32 e.payload) e.payload e.counted (crc32_bound e.payload)
            room
          ∙ rw (reads, same) (ap (λ v. ok (record file { version = v })) (sym e.version)))

  -- What `encode` writes, `decode` reads: of a writable file, `encode` either writes bytes from which
  -- `decode` gives the same file, with the same limits and compressed or not, or says that it is too
  -- large. The serialisation of the styles and the compression of blocks are taken to be undone by
  -- their inverses, within the bounds that `decode` sets to the length of a compressed block.
  pub decode-encode :
      (laws : IsFaithful codec) (file : HistoryFile S) (config : PersistConfig)
      → IsWritable codec file config
      → ((bytes : List ℕ) × (encode codec file config ≡ ok bytes)
          × (decode codec bytes config ≡ ok file))
        ⊎ (encode codec file config ≡ err too_large)
  decode-encode laws file config w = elim (encode-IsWritten codec file config w) [
    | inl (bytes, h) ↦ inl (bytes, h, decode_of_encode laws file config w.wide w.sound h)
    | inr h ↦ inr h
  ]
