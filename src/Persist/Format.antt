-- ===== src/Persist/Format.antt =====
-- The types of the history file, its limits and the bytes of its cells:
-- crates/mr-crabs-history/src/persist.rs.
use mr_crabs.Common.{
  ℕ, ◌+◌, ◌*◌, Bool, true, false, not, ◌&&◌, ◌||◌, Option, none, some, List, [], ◌∷◌, ◌++◌, ltb,
  ◌==◌, length,
}
use mr_crabs.Grid.{Cell}
use mr_crabs.Persist.Bytes.{Result, ok, err, fail_if, corrupt, le_u16, le_u32}

-- "MCH8"
abbrev pub persist_magic : List ℕ
persist_magic = b'M' ∷ b'C' ∷ b'H' ∷ b'8' ∷ []

abbrev pub persist_version : ℕ
persist_version = 2

abbrev pub persist_chunk_lines : ℕ
persist_chunk_lines = 1024

abbrev pub u32_max : ℕ
u32_max = 4294967295

pub record PersistConfig : Type 0 where
  pub max_bytes : ℕ
  pub max_lines : ℕ
  pub compress : Bool

pub record HistoryFile (S : Type 0) : Type 0 where
  pub version : ℕ
  pub styles : List S
  pub cols : List ℕ
  pub lines : List (List Cell)

-- `serde_json::to_vec` and `from_slice` for the style table, `lz4_flex::block::compress` and
-- `decompress_into`, which gets the length of the buffer and gives the bytes that it writes, and the
-- comparison with the default style.
pub record Codec (S : Type 0) : Type 0 where
  pub to_vec : List S → Option (List ℕ)
  pub from_slice : List ℕ → Option (List S)
  pub compress : List ℕ → List ℕ
  pub decompress_into : List ℕ → ℕ → Option (List ℕ)
  pub is_default : S → Bool

abbrev pub or_corrupt : {A : Type 0} → Option A → Result A
or_corrupt none = err corrupt
or_corrupt (some a) = ok a

abbrev pub is_nil {ℓ} : {A : Type ℓ} → List A → Bool
is_nil [] = true
is_nil (_ ∷ _) = false

abbrev pub concat : List (List Cell) → List Cell
concat [] = []
concat (l ∷ ls) = l ++ concat ls

abbrev pub sum : List ℕ → ℕ
sum [] = 0
sum (n ∷ ns) = n + sum ns

abbrev pub one_cell : Cell → List ℕ
one_cell c = le_u32 c.content ++ (le_u16 c.style ++ le_u16 c.flags)

abbrev pub cell_bytes : List Cell → List ℕ
cell_bytes [] = []
cell_bytes (c ∷ cs) = one_cell c ++ cell_bytes cs

-- The cells that a buffer of bytes is.
abbrev pub cells_of : List ℕ → List Cell
cells_of (a ∷ b ∷ c ∷ d ∷ e ∷ f ∷ g ∷ h ∷ rest) =
    record {
      content = a + 256 * b + 65536 * c + 16777216 * d;
      style = e + 256 * f;
      flags = g + 256 * h;
    }
    ∷ cells_of rest
cells_of _ = []

abbrev pub default_cell : Cell
default_cell = record { content = 32; style = 0; flags = 0 }

abbrev pub styles_in : ℕ → List Cell → Bool
styles_in n [] = true
styles_in n (c ∷ cs) = ltb c.style n && styles_in n cs

-- Every line has its width and only styles of the table.
abbrev pub lines_fit : ℕ → List ℕ → List (List Cell) → Bool
lines_fit n (w ∷ ws) (l ∷ ls) = (length l == w) && styles_in n l && lines_fit n ws ls
lines_fit n _ _ = true

abbrev pub widths_fit : List ℕ → List (List Cell) → Bool
widths_fit (w ∷ ws) (l ∷ ls) = (length l == w) && widths_fit ws ls
widths_fit _ _ = true

abbrev pub widths : List ℕ → List ℕ
widths [] = []
widths (w ∷ ws) = le_u16 w ++ widths ws

module _ {S : Type 0} (codec : Codec S) where
  abbrev pub validate_styles : List S → Result Unit
  validate_styles [] = err corrupt
  validate_styles (s ∷ styles) =
      fail_if (ltb 65536 (length (s ∷ styles)) || not (codec.is_default s)) corrupt
