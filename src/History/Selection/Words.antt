-- ===== src/History/Selection/Words.antt =====
-- What a word and a selection's extent are: crates/mr-crabs-history/src/selection.rs.
use mr_crabs.Common.{
  ℕ, zero, suc, ◌+◌, ◌-◌, ◌≤◌, ◌<◌, ◌≡◌, refl, ap, ap₂, subst, sym, ◌∙◌, ◌⊎◌, inl, inr, Bool, true,
  false, not, ◌&&◌, List, ltb, ◌==◌, min, arith, length, Bool-cases,
}
use mr_crabs.Grid.{Cell}
use mr_crabs.History.Selection.{boundary_at, to_u16, go_back, go_on, expand_word}

-- The test fails for so many numbers from the first one on.
abbrev pub Free : (ℕ → Bool) → ℕ → ℕ → Type 0
Free boundary from zero = Unit
Free boundary from (suc n) = (boundary from ≡ false) × Free boundary (from + 1) n

-- Nothing is left of the number, or there is a boundary.
abbrev pub StartsAt : (ℕ → Bool) → ℕ → Type 0
StartsAt boundary zero = Unit
StartsAt boundary (suc start) = boundary start ≡ true

abbrev pub EndsAt : (ℕ → Bool) → ℕ → ℕ → Type 0
EndsAt boundary cols end = (end + 1 ≡ cols) ⊎ (boundary (end + 1) ≡ true)

module _ (boundary : ℕ → Bool) where
  pub Free-eq : (from i j : ℕ) → i ≡ j → Free boundary from i → Free boundary from j
  Free-eq from i j e = subst (Free boundary from) e

  pub Free-append :
      (from n m : ℕ)
      → Free boundary from n
      → Free boundary (from + n) m
      → Free boundary from (n + m)
  Free-append from zero m f g =
      Free-eq from m (0 + m) (omega arith) (subst (λ i. Free boundary i m) from_zero g)
    where
      from_zero : from + 0 ≡ from
      from_zero = omega arith
  Free-append from (suc n) m f g =
      Free-eq from (suc (n + m)) (suc n + m) (omega arith)
        (f.0, Free-append (from + 1) n m f.1 (subst (λ i. Free boundary i m) from_suc g))
    where
      from_suc : from + suc n ≡ from + 1 + n
      from_suc = omega arith

  Free-last :
      (from n : ℕ) → Free boundary from n → boundary (from + n) ≡ false → Free boundary from (suc n)
  Free-last from n f h = Free-eq from (n + 1) (suc n) (omega arith) (Free-append from n 1 f (h, tt))

  pub go_back_lem :
      (start : ℕ)
      → StartsAt boundary (go_back boundary start)
        × ((n : ℕ) × (go_back boundary start + n ≡ start)
            × Free boundary (go_back boundary start) n)
  unfolding go_back
  go_back_lem zero = (tt, (0, omega arith, tt))
  go_back_lem (suc start) = elim (Bool-cases (boundary start)) [
    | inl b ↦ rw b (b, (0, omega arith, tt))
    | inr free ↦
        let (starts, (n, e, f)) = go_back_lem start in
        rw free (
          starts,
          (suc n, omega (arith, e), Free-last (go_back boundary start) n f (ap boundary e ∙ free)),
        )
  ]

  go_on_lem :
      (fuel cols end : ℕ)
      → end < cols
      → cols ≤ end + fuel
      → (go_on fuel boundary cols end < cols)
        × EndsAt boundary cols (go_on fuel boundary cols end)
        × ((n : ℕ) × (go_on fuel boundary cols end ≡ end + n) × Free boundary (end + 1) n)
  unfolding go_on
  go_on_lem zero cols end h enough = absurd (omega (arith, h, enough))
  go_on_lem (suc fuel) cols end h enough =
      elim (Bool-cases (ltb (end + 1) cols && not (boundary (end + 1)))) [
        | inl more ↦
            let (inside, ends, (n, e, f)) =
              go_on_lem fuel cols (end + 1) (ground (arith, more)) (omega (arith, enough)) in
            rw more (inside, ends, (suc n, omega (arith, e), (ground (arith, more), f)))
        | inr last ↦ rw last (h, ends last, (0, omega arith, tt))
      ]
    where
      ends : (ltb (end + 1) cols && not (boundary (end + 1))) ≡ false → EndsAt boundary cols end
      ends last = elim (Bool-cases (boundary (end + 1))) [
        | inl b ↦ inr b
        | inr free ↦ inl (ground (arith, last, free, h))
      ]

-- What `expand_word` gives at the column `at`: the column alone, if it is a boundary, and otherwise
-- the first and the last column of the longest stretch around it without a boundary.
abbrev pub IsWord : (ℕ → Bool) → ℕ → ℕ → ℕ × ℕ → Type 0
IsWord boundary cols at (start, end) =
    ((boundary at ≡ true) × (start ≡ at) × (end ≡ at))
    ⊎ ((boundary at ≡ false)
        × (end < cols)
        × StartsAt boundary start
        × EndsAt boundary cols end
        × ((n : ℕ) × (start + n ≡ at) × Free boundary start n)
        × ((n : ℕ) × (end ≡ at + n) × Free boundary (at + 1) n))

to_u16_lem : (n : ℕ) → n ≤ 65535 → to_u16 n ≡ n
to_u16_lem n h = ground (arith, h)

-- In a row of at least one cell and at most 65536, `expand_word` finds the word at the column, which
-- it first moves into the row.
pub expand_word-IsWord :
    (cells : List Cell) (col : ℕ) (boundaries : List ℕ)
    → 0 < length cells
    → length cells ≤ 65536
    → IsWord
        (λ i. boundary_at cells i boundaries)
        (length cells)
        (min col (length cells - 1))
        (expand_word cells col boundaries)
unfolding expand_word
expand_word-IsWord cells col boundaries some_cell few = elim (Bool-cases (boundary at)) [
  | inl b ↦ found at at (alone b) (inl (b, refl, refl)) (omega (arith, few)) (omega (arith, few))
  | inr free ↦
      let (starts, left) = go_back_lem boundary at in
      let (inside, ends, right) =
        go_on_lem boundary cols cols at (omega (arith, some_cell)) (omega arith) in
      found (go_back boundary at) (go_on cols boundary cols at) (around free)
        (inr (free, inside, starts, ends, left, right)) (omega (arith, left.1, few))
        (omega (arith, inside, few))
]
  where
    cols : ℕ
    cols = length cells

    at : ℕ
    at = min col (length cells - 1)

    boundary : ℕ → Bool
    boundary i = boundary_at cells i boundaries

    no_cells : (length cells == 0) ≡ false
    no_cells = ground (arith, some_cell)

    alone : boundary at ≡ true → expand_word cells col boundaries ≡ (to_u16 at, to_u16 at)
    alone b = rw (no_cells, b) refl

    around :
        boundary at ≡ false
        → expand_word cells col boundaries
          ≡ (to_u16 (go_back boundary at), to_u16 (go_on cols boundary cols at))
    around free = rw (no_cells, free) refl

    found :
        (start end : ℕ)
        → expand_word cells col boundaries ≡ (to_u16 start, to_u16 end)
        → IsWord boundary cols at (start, end)
        → start ≤ 65535
        → end ≤ 65535
        → IsWord boundary cols at (expand_word cells col boundaries)
    found start end e word s l =
        subst (IsWord boundary cols at)
          (sym (e ∙ ap₂ (λ a b. (a, b)) (to_u16_lem start s) (to_u16_lem end l))) word
