-- ===== src/Persist/Tests.antt =====
-- Runs of the history file with numbers for styles, and the theorems about it at a concrete file.
use mr_crabs.Common.{
  zero, suc, ◌<◌, subst, ◌⊎◌, ℕ, ◌≡◌, refl, sym, true, Option, none, some, List, [], ◌∷◌,
  if◌then◌else◌, leb, ◌==◌, length, arith, drop, take, ◌++◌,
}
use mr_crabs.Grid.{Cell}
use mr_crabs.Persist.Bytes.{
  too_large, Result, ok, err, corrupt, truncated, ◌>>=◌, crc32, read_u32, read_u16, read_slice,
}
use mr_crabs.Persist.Format.{PersistConfig, HistoryFile, Codec, default_cell}
use mr_crabs.Persist.Encode.{encode, encode_chunks}
use mr_crabs.Persist.Decode.{
  decode, decode_payload, decode_chunks, decode_chunk, read_widths, split_lines,
}
use mr_crabs.Persist.Chunks.{IsFaithful}
use mr_crabs.Persist.Written.{IsWritable}
use mr_crabs.Persist.Capture.{Terminal, capture, decode-capture}
use mr_crabs.Persist.Lines.{AreCells}
use mr_crabs.Persist.RoundTrip.{decode-encode}

abbrev unmark : List ℕ → ℕ → Option (List ℕ)
unmark [] n = none
unmark (_ ∷ b) n = if leb (length b) n then some b else none

-- A style is a byte, and a compressed block is the block behind a mark.
abbrev plain : Codec ℕ
plain = record {
  to_vec = λ styles. some styles;
  from_slice = λ b. some b;
  compress = λ b. 7 ∷ b;
  decompress_into = unmark;
  is_default = λ s. s == 0;
}

unmark-mark : (b : List ℕ) → unmark (7 ∷ b) (length b) ≡ some b
unmark-mark b = ground arith

plain-IsFaithful : IsFaithful plain
plain-IsFaithful = record {
  json = λ styles b h. sym h;
  undone = unmark-mark;
  nonempty = λ b. omega arith;
  short = λ b h. omega (arith, h);
  dense = λ b. omega arith;
}

abbrev letter : ℕ → Cell
letter c = record { content = c; style = 1; flags = 0 }

abbrev two_lines : HistoryFile ℕ
two_lines = record {
  version = 2;
  styles = 0 ∷ 5 ∷ [];
  cols = 2 ∷ 1 ∷ [];
  lines = (letter b'a' ∷ letter b'b' ∷ []) ∷ (letter 0x1f600 ∷ []) ∷ [];
}

abbrev small : PersistConfig
small = record { max_bytes = 200; max_lines = 10; compress = true }

abbrev bytes_of : Result (List ℕ) → List ℕ
bytes_of (ok b) = b
bytes_of (err _) = []

abbrev written : List ℕ
written = bytes_of (encode plain two_lines small)

encode_runs : encode plain two_lines small ≡ ok written
unfolding encode encode_chunks crc32
encode_runs = refl

decode_runs : decode plain written small ≡ ok two_lines
unfolding encode encode_chunks crc32 decode decode_payload decode_chunks decode_chunk read_u32
    read_u16 read_slice read_widths split_lines
decode_runs = refl

two_lines-IsWritable : IsWritable plain two_lines small
two_lines-IsWritable = record {
  version = refl;
  valid = refl;
  few = omega arith;
  same = refl;
  fit = refl;
  text = (0 ∷ 5 ∷ [], refl);
  wide = (omega arith, omega arith, (omega arith, omega arith, tt));
  sound = (
    ((omega arith, omega arith, omega arith), ((omega arith, omega arith, omega arith), tt)),
    (((omega arith, omega arith, omega arith), tt), tt),
  );
}

decode-encode_example :
    ((bytes : List ℕ) × (encode plain two_lines small ≡ ok bytes)
      × (decode plain bytes small ≡ ok two_lines))
    ⊎ (encode plain two_lines small ≡ err too_large)
decode-encode_example = decode-encode plain plain-IsFaithful two_lines small two_lines-IsWritable

-- A byte less is a truncated file, and a changed byte of the payload a corrupt one.
truncated_runs : decode plain (take 40 written) small ≡ err truncated
unfolding encode encode_chunks crc32 decode decode_payload decode_chunks decode_chunk read_u32
    read_u16 read_slice read_widths split_lines
truncated_runs = refl

changed_runs :
    decode plain
      (take 17 written ++ (2 ∷ 0 ∷ 0 ∷ 0 ∷ 2 ∷ 0 ∷ 0 ∷ 0 ∷ 0 ∷ 6 ∷ drop 27 written))
      small
    ≡ err corrupt
unfolding encode encode_chunks crc32 decode decode_payload decode_chunks decode_chunk read_u32
    read_u16 read_slice read_widths split_lines
changed_runs = refl

-- A line without cells can be written and not be read.
abbrev empty_line : HistoryFile ℕ
empty_line = record two_lines { cols = 0 ∷ []; lines = [] ∷ [] }

empty_line_runs : (encode plain empty_line small >>= λ b. decode plain b small) ≡ err corrupt
unfolding encode encode_chunks crc32 decode decode_payload decode_chunks decode_chunk read_u32
    read_u16 read_slice read_widths split_lines
empty_line_runs = refl

-- A block that gives fewer bytes than its cells take is read as default cells.
abbrev lossy : Codec ℕ
lossy = record plain { decompress_into = λ b n. some [] }

lossy_runs :
    decode lossy written small
    ≡ ok
        (record two_lines { lines = (default_cell ∷ default_cell ∷ []) ∷ (default_cell ∷ []) ∷ [] })
unfolding encode encode_chunks crc32 decode decode_payload decode_chunks decode_chunk read_u32
    read_u16 read_slice read_widths split_lines
lossy_runs = refl

-- A terminal with the lines of the file, which counts its reads.
abbrev line_at : ℕ → Option (List Cell)
line_at zero = some (letter b'a' ∷ letter b'b' ∷ [])
line_at (suc zero) = some (letter 0x1f600 ∷ [])
line_at _ = none

abbrev cols_at : ℕ → Option ℕ
cols_at zero = some 2
cols_at (suc zero) = some 1
cols_at _ = none

abbrev screen : Terminal ℕ ℕ
screen = record {
  history_len = λ _. 2;
  line_cols = λ _ i. cols_at i;
  read_line = λ t i. (suc t, line_at i);
  global_styles = λ _. 0 ∷ 5 ∷ [];
}

line_at-cells :
    (i : ℕ) (cells : List Cell) → line_at i ≡ some cells → (0 < length cells) × AreCells cells
line_at-cells zero cells h =
    let same : letter b'a' ∷ letter b'b' ∷ [] ≡ cells = cc in
    subst (λ c. (0 < length c) × AreCells c) same
      (
        omega arith,
        ((omega arith, omega arith, omega arith), ((omega arith, omega arith, omega arith), tt)),
      )
line_at-cells (suc zero) cells h =
    let same : letter 0x1f600 ∷ [] ≡ cells = cc in
    subst (λ c. (0 < length c) × AreCells c) same
      (omega arith, ((omega arith, omega arith, omega arith), tt))
line_at-cells (suc (suc i)) cells h = cc

capture_runs : capture plain screen 0 small ≡ ok (2, two_lines)
unfolding capture
capture_runs = refl

decode-capture_example :
    ((bytes : List ℕ) × (encode plain two_lines small ≡ ok bytes)
      × (decode plain bytes small ≡ ok two_lines))
    ⊎ (encode plain two_lines small ≡ err too_large)
decode-capture_example =
    decode-capture plain screen plain-IsFaithful (λ t i cells h. line_at-cells i cells h)
      (λ styles. (styles, refl)) 0 small capture_runs
