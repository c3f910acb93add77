-- ===== src/SideTables/Index.antt =====
-- The index of a table: a `HashMap` from the interned values to their numbers, and the part of
-- `intern` that the tables of crates/mr-crabs-terminal/src/side_tables.rs share.
use mr_crabs.Common.{
  ℕ, suc, ◌≡◌, Bool, true, Option, none, some, List, [], ◌∷◌, ◌++◌, if◌then◌else◌, leb, length,
}

-- `Eq` of a type: a test that decides equality.
pub record Equality (K : Type 0) : Type 0 where
  pub same : K → K → Bool
  pub same→eq : (a b : K) → same a b ≡ true → a ≡ b
  pub same_refl : (a : K) → same a a ≡ true

module _ {K : Type 0} (E : Equality K) where
  abbrev pub find : K → List (K × ℕ) → Option ℕ
  find k [] = none
  find k ((j, id) ∷ m) = if E.same j k then some id else find k m

  -- `index.entry(k).or_insert(id)`, with what the map has at `k`.
  abbrev pub or_insert_at : K → ℕ → List (K × ℕ) → Option ℕ → List (K × ℕ)
  or_insert_at k id m (some _) = m
  or_insert_at k id m none = (k, id) ∷ m

  abbrev pub or_insert : K → ℕ → List (K × ℕ) → List (K × ℕ)
  or_insert k id m = or_insert_at k id m (find k m)

  -- `intern` with what the index has at the value, for numbers up to `top`: the entries, the index
  -- and the number of the value. `none` is the panic of `try_from(…).expect(…)`.
  abbrev pub intern_at :
      ℕ → List K → List (K × ℕ) → K → Option ℕ → Option (List K × List (K × ℕ) × ℕ)
  intern_at top entries index k (some id) = some (entries, index, id)
  intern_at top entries index k none =
      if leb (length entries) top
      then some (entries ++ (k ∷ []), (k, length entries) ∷ index, length entries)
      else none

  abbrev pub intern_in : ℕ → List K → List (K × ℕ) → K → Option (List K × List (K × ℕ) × ℕ)
  intern_in top entries index k = intern_at top entries index k (find k index)

  -- Where the value stands first, counted from `i`.
  abbrev pub position_from : ℕ → K → List K → Option ℕ
  position_from i k [] = none
  position_from i k (x ∷ xs) = if E.same x k then some i else position_from (suc i) k xs

  -- The index tells the first place of each value.
  abbrev pub IsIndexed : List K → List (K × ℕ) → Type 0
  IsIndexed entries index = (k : K) → find k index ≡ position_from 0 k entries
