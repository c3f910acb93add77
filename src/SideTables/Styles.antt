-- ===== src/SideTables/Styles.antt =====
-- The table of styles: `StyleTable` of crates/mr-crabs-terminal/src/side_tables.rs. `S` is the type
-- `Style`, of which the table uses the equality and the default.
use mr_crabs.Common.{
  ℕ, suc, Bool, false, Option, none, some, List, [], ◌∷◌, ◌>>=◌, if◌then◌else◌, ltb, leb, ◌==◌,
  length, get_elem?, not,
}
use mr_crabs.SideTables.Index.{Equality, or_insert, intern_in}

pub data TerminalError : Type 0 where
  zero_columns zero_rows invalid_region style_overflow restore_size_mismatch restore_style_index :
      TerminalError
  restore_style_table style_compaction_capacity style_compaction_corrupt : TerminalError

pub data Result (A : Type 0) : Type 0 where
  ok : A → Result A
  err : TerminalError → Result A

pub record StyleTable (S : Type 0) : Type 0 where
  pub styles : List S
  pub index : List (S × ℕ)
  pub epoch : ℕ

module _ {S : Type 0} (E : Equality S) (default : S) where
  unfoldable pub new : StyleTable S
  new = record { styles = default ∷ []; index = (default, 0) ∷ []; epoch = 0 }

  -- `styles.first() == Some(&Style::default())`.
  abbrev pub starts_default : List S → Bool
  starts_default [] = false
  starts_default (s ∷ _) = E.same s default

  -- The loop of `from_exact` from number `i` on.
  unfoldable pub index_from : ℕ → List S → List (S × ℕ) → Option (List (S × ℕ))
  index_from i [] m = some m
  index_from i (s ∷ ss) m = if leb i 65535 then index_from (suc i) ss (or_insert E s i m) else none

  -- `none` is a panic.
  unfoldable pub from_exact : List S → Option (Result (StyleTable S))
  unfolding index_from
  from_exact styles =
      if length styles == 0
      then some (err restore_style_table)
      else if ltb 65536 (length styles)
      then some (err restore_style_table)
      else if not (starts_default styles)
      then some (err restore_style_table)
      else do
        m ← index_from 0 styles []
        some (ok (record { styles = styles; index = m; epoch = 0 }))

module _ {S : Type 0} (E : Equality S) where
  unfoldable pub intern : StyleTable S → S → Option (StyleTable S × ℕ)
  intern t s = do
    (styles, index, id) ← intern_in E 65535 t.styles t.index s
    some (record t { styles = styles; index = index }, id)

module _ {S : Type 0} where
  unfoldable pub get : StyleTable S → ℕ → Option S
  get t id = get_elem? t.styles id

  abbrev pub as_slice : StyleTable S → List S
  as_slice t = t.styles

  abbrev pub len : StyleTable S → ℕ
  len t = length t.styles

  abbrev pub is_empty : StyleTable S → Bool
  is_empty t = length t.styles == 0
