-- ===== src/Persist/Capture.antt =====
-- `HistoryFile::capture` of crates/mr-crabs-history/src/persist.rs. `T` is the terminal, whose reads
-- may change it; the terminal after an error is left out.
use mr_crabs.Common.{
  ℕ, zero, suc, ◌<◌, ◌≡◌, refl, sym, ap, subst, ◌∙◌, ◌⊎◌, Bool, true, not, ◌&&◌, Option, none, some,
  List, [], ◌∷◌, ltb, ◌==◌, length, arith,
}
use mr_crabs.Grid.{Cell}
use mr_crabs.Persist.Bytes.{
  Result, ok, err, ◌>>=◌, ◌>>◌, fail_if, corrupt, too_large, too_many_lines, bind-ok, guard-ok,
  seq-ok, ok-injective,
}
use mr_crabs.Persist.Format.{
  PersistConfig, HistoryFile, Codec, or_corrupt, styles_in, lines_fit, persist_version,
  validate_styles,
}
use mr_crabs.Persist.Encode.{encode}
use mr_crabs.Persist.Decode.{decode}
use mr_crabs.Persist.Lines.{AreCells, AreWidths, AreCellLines}
use mr_crabs.Persist.Chunks.{IsFaithful}
use mr_crabs.Persist.Written.{IsWritable}
use mr_crabs.Persist.RoundTrip.{decode-encode}

-- The reads of the history from the terminal. `read_line` gives none where the terminal has no such
-- line.
pub record Terminal (T S : Type 0) : Type 0 where
  pub history_len : T → ℕ
  pub line_cols : T → ℕ → Option ℕ
  pub read_line : T → ℕ → T × Option (List Cell)
  pub global_styles : T → List S

abbrev pub all_styles_in : ℕ → List (List Cell) → Bool
all_styles_in n [] = true
all_styles_in n (l ∷ ls) = styles_in n l && all_styles_in n ls

-- As many lines as asked for, of their widths and in range.
record IsCaptured (n : ℕ) (cols : List ℕ) (lines : List (List Cell)) : Type 0 where
  counted : length lines ≡ n
  paired : length cols ≡ n
  wide : AreWidths cols
  sound : AreCellLines lines
  fit : (k : ℕ) → lines_fit k cols lines ≡ all_styles_in k lines

none-IsCaptured : IsCaptured 0 [] []
none-IsCaptured = record { counted = refl; paired = refl; wide = tt; sound = tt; fit = λ k. refl }

cons-IsCaptured :
    (n w : ℕ) (c : List Cell) (ws : List ℕ) (ls : List (List Cell))
    → w < 65536
    → length c ≡ w
    → 0 < length c
    → AreCells c
    → IsCaptured n ws ls
    → IsCaptured (suc n) (w ∷ ws) (c ∷ ls)
cons-IsCaptured n w c ws ls small same filled cells rest = record {
  counted = ap suc rest.counted;
  paired = ap suc rest.paired;
  wide = (omega (arith, same, filled), small, rest.wide);
  sound = (cells, rest.sound);
  fit = λ k. ground (arith, same, rest.fit k);
}

module _ {T S : Type 0} (codec : Codec S) (terminal : Terminal T S) where
  -- The lines from an index on.
  abbrev pub capture_lines : ℕ → ℕ → T → Result (T × List ℕ × List (List Cell))
  capture_lines zero index t = ok (t, [], [])
  capture_lines (suc n) index t = do
    let (t', line) = terminal.read_line t index
    width ← or_corrupt (terminal.line_cols t index)
    fail_if (ltb 65535 width) corrupt
    cells ← or_corrupt line
    fail_if (not (length cells == width)) corrupt
    (t'', cols, lines) ← capture_lines n (suc index) t'
    ok (t'', width ∷ cols, cells ∷ lines)

  unfoldable pub capture : T → PersistConfig → Result (T × HistoryFile S)
  capture t config = do
    fail_if (ltb config.max_lines (terminal.history_len t)) too_many_lines
    (t', cols, lines) ← capture_lines (terminal.history_len t) 0 t
    let styles = terminal.global_styles t'
    validate_styles codec styles
    fail_if (not (all_styles_in (length styles) lines)) corrupt
    ok (t', record { version = persist_version; styles = styles; cols = cols; lines = lines })

  -- The lines that the terminal gives have a cell, and cells in range.
  abbrev pub GivesLines : Type 0
  GivesLines =
      (t : T) (i : ℕ) (cells : List Cell)
      → (terminal.read_line t i).1 ≡ some cells
      → (0 < length cells) × AreCells cells

  or_corrupt-ok : {A : Type 0} (o : Option A) {a : A} → or_corrupt o ≡ ok a → o ≡ some a
  or_corrupt-ok none h = cc
  or_corrupt-ok (some a) h = ap some (ok-injective h)

  capture_lines-IsCaptured :
      GivesLines
      → (n index : ℕ) (t : T) {t' : T} {cols : List ℕ} {lines : List (List Cell)}
      → capture_lines n index t ≡ ok (t', cols, lines)
      → IsCaptured n cols lines
  capture_lines-IsCaptured gives zero index t h =
      subst (λ r. IsCaptured 0 r.1 r.2) (ok-injective h) none-IsCaptured
  capture_lines-IsCaptured gives (suc n) index t {t'} {cols} {lines} h =
      let (width, _, h) = bind-ok (or_corrupt (terminal.line_cols t index)) _ h in
      let (small, h) = guard-ok (ltb 65535 width) corrupt _ h in
      let (cells, read, h) = bind-ok (or_corrupt (terminal.read_line t index).1) _ h in
      let (same, h) = guard-ok (not (length cells == width)) corrupt _ h in
      let ((u, ws, ls), more, h) =
        bind-ok (capture_lines n (suc index) (terminal.read_line t index).0) _ h in
      let rest = capture_lines-IsCaptured gives n (suc index) (terminal.read_line t index).0 more in
      let (filled, sound) =
        gives t index cells (or_corrupt-ok (terminal.read_line t index).1 read) in
      subst (λ r. IsCaptured (suc n) r.1 r.2) (ok-injective h)
        (cons-IsCaptured n width cells ws ls (ground (arith, small)) (ground (arith, same)) filled
          sound rest)

  -- A file that was captured can be written, if its styles can be serialised.
  capture-IsWritable :
      GivesLines
      → ((styles : List S) → (json : List ℕ) × (codec.to_vec styles ≡ some json))
      → (t : T) (config : PersistConfig) {t' : T} {file : HistoryFile S}
      → capture t config ≡ ok (t', file)
      → IsWritable codec file config
  unfolding capture
  capture-IsWritable gives texts t config {t'} {file} h =
      let n = terminal.history_len t in
      let (short, h) = guard-ok (ltb config.max_lines n) too_many_lines _ h in
      let ((u, cols, lines), read, h) = bind-ok (capture_lines n 0 t) _ h in
      let styles = terminal.global_styles u in
      let (valid, h) = seq-ok (validate_styles codec styles) _ h in
      let (fits, h) = guard-ok (not (all_styles_in (length styles) lines)) corrupt _ h in
      let c = capture_lines-IsCaptured gives n 0 t read in
      subst (λ r. IsWritable codec r.1 config) (ok-injective h)
        (record {
          version = refl;
          valid = valid;
          few = ground (arith, short, c.counted);
          same = c.counted ∙ sym c.paired;
          fit = c.fit (length styles) ∙ ground (arith, fits);
          text = texts styles;
          wide = c.wide;
          sound = c.sound;
        })

  -- A history that was captured is written and read back: `decode` gives the file that was captured,
  -- unless `encode` says that it is too large. The terminal gives lines with cells, and cells in
  -- range.
  pub decode-capture :
      (laws : IsFaithful codec)
      → GivesLines
      → ((styles : List S) → (json : List ℕ) × (codec.to_vec styles ≡ some json))
      → (t : T) (config : PersistConfig) {t' : T} {file : HistoryFile S}
      → capture t config ≡ ok (t', file)
      → ((bytes : List ℕ) × (encode codec file config ≡ ok bytes)
          × (decode codec bytes config ≡ ok file))
        ⊎ (encode codec file config ≡ err too_large)
  decode-capture laws gives texts t config {t'} {file} h =
      decode-encode codec laws file config (capture-IsWritable gives texts t config h)
