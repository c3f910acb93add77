-- ===== src/Persist/Lines.antt =====
-- The lines of the history file, as bytes and back: crates/mr-crabs-history/src/persist.rs.
use mr_crabs.Common.{
  ℕ, zero, suc, ◌*◌, ◌<◌, ◌≡◌, refl, ap, true, false, List, [], ◌∷◌, ◌++◌, ltb, length,
  length-append, take, drop, arith,
}
use mr_crabs.Grid.{Cell}
use mr_crabs.Persist.Bytes.{
  ok, read_u16-le_u16, le_u32_whole, le_u16_whole, take-append, drop-append,
}
use mr_crabs.Persist.Format.{
  concat, sum, one_cell, cell_bytes, cells_of, styles_in, lines_fit, widths,
}
use mr_crabs.Persist.Decode.{read_widths, split_lines}

-- A cell within the ranges of its fields.
abbrev pub IsCell : Cell → Type 0
IsCell c = (c.content < 4294967296) × (c.style < 65536) × (c.flags < 65536)

abbrev pub AreCells : List Cell → Type 0
AreCells [] = Unit
AreCells (c ∷ cs) = IsCell c × AreCells cs

-- A line of a positive width in the range of its field, with cells and styles in range.
abbrev pub IsLine : ℕ → ℕ → List Cell → Type 0
IsLine n w l = (0 < w) × (w < 65536) × (length l ≡ w) × (styles_in n l ≡ true) × AreCells l

abbrev pub AreLines : ℕ → List ℕ → List (List Cell) → Type 0
AreLines n [] [] = Unit
AreLines n (w ∷ ws) (l ∷ ls) = IsLine n w l × AreLines n ws ls
AreLines n [] (_ ∷ _) = ⊥
AreLines n (_ ∷ _) [] = ⊥

AreCells-append : (xs ys : List Cell) → AreCells xs → AreCells ys → AreCells (xs ++ ys)
AreCells-append [] ys a b = b
AreCells-append (x ∷ xs) ys a b = (a.0, AreCells-append xs ys a.1 b)

styles_in-append :
    (n : ℕ) (xs ys : List Cell)
    → styles_in n xs ≡ true
    → styles_in n ys ≡ true
    → styles_in n (xs ++ ys) ≡ true
styles_in-append n [] ys a b = b
styles_in-append n (x ∷ xs) ys a b = ground (arith, styles_in-append n xs ys)

pub length-cell_bytes : (cs : List Cell) → length (cell_bytes cs) ≡ 8 * length cs
length-cell_bytes [] = refl
length-cell_bytes (c ∷ cs) = omega (arith, length-cell_bytes cs)

same_cell : (c : Cell) → IsCell c → cells_of (one_cell c) ≡ c ∷ []
same_cell c (h, k, l) =
    rw (le_u32_whole c.content h, le_u16_whole c.style k, le_u16_whole c.flags l) refl

pub cells_of-cell_bytes : (cs : List Cell) → AreCells cs → cells_of (cell_bytes cs) ≡ cs
cells_of-cell_bytes [] a = refl
cells_of-cell_bytes (c ∷ cs) ((h, k, l), a) =
    rw
      (
        le_u32_whole c.content h,
        le_u16_whole c.style k,
        le_u16_whole c.flags l,
        cells_of-cell_bytes cs a,
      )
      refl

module _ (n : ℕ) where
  pub AreLines-length :
      (ws : List ℕ) (ls : List (List Cell)) → AreLines n ws ls → length ws ≡ length ls
  AreLines-length [] [] a = refl
  AreLines-length [] (l ∷ ls) a = absurd a
  AreLines-length (w ∷ ws) [] a = absurd a
  AreLines-length (w ∷ ws) (l ∷ ls) a = ap suc (AreLines-length ws ls a.1)

  pub AreLines-take :
      (k : ℕ) (ws : List ℕ) (ls : List (List Cell))
      → AreLines n ws ls
      → AreLines n (take k ws) (take k ls)
  AreLines-take zero ws ls a = tt
  AreLines-take (suc k) [] [] a = tt
  AreLines-take (suc k) [] (l ∷ ls) a = absurd a
  AreLines-take (suc k) (w ∷ ws) [] a = absurd a
  AreLines-take (suc k) (w ∷ ws) (l ∷ ls) a = (a.0, AreLines-take k ws ls a.1)

  pub AreLines-drop :
      (k : ℕ) (ws : List ℕ) (ls : List (List Cell))
      → AreLines n ws ls
      → AreLines n (drop k ws) (drop k ls)
  AreLines-drop zero ws ls a = a
  AreLines-drop (suc k) [] [] a = tt
  AreLines-drop (suc k) [] (l ∷ ls) a = absurd a
  AreLines-drop (suc k) (w ∷ ws) [] a = absurd a
  AreLines-drop (suc k) (w ∷ ws) (l ∷ ls) a = AreLines-drop k ws ls a.1

  pub concat-AreCells :
      (ws : List ℕ) (ls : List (List Cell))
      → AreLines n ws ls
      → AreCells (concat ls) × (styles_in n (concat ls) ≡ true)
  concat-AreCells [] [] a = (tt, refl)
  concat-AreCells [] (l ∷ ls) a = absurd a
  concat-AreCells (w ∷ ws) [] a = absurd a
  concat-AreCells (w ∷ ws) (l ∷ ls) ((_, _, _, s, c), a) =
      let (cs, ss) = concat-AreCells ws ls a in
      (AreCells-append l (concat ls) c cs, styles_in-append n l (concat ls) s ss)

  pub sum-concat :
      (ws : List ℕ) (ls : List (List Cell)) → AreLines n ws ls → sum ws ≡ length (concat ls)
  sum-concat [] [] a = refl
  sum-concat [] (l ∷ ls) a = absurd a
  sum-concat (w ∷ ws) [] a = absurd a
  sum-concat (w ∷ ws) (l ∷ ls) ((_, _, e, _, _), a) =
      omega (arith, length-append l (concat ls), sum-concat ws ls a, e)

  -- A line that is there has a cell.
  pub concat_positive :
      (ws : List ℕ) (ls : List (List Cell))
      → AreLines n ws ls
      → 0 < length ls
      → 0 < length (concat ls)
  concat_positive [] [] a h = h
  concat_positive [] (l ∷ ls) a h = absurd a
  concat_positive (w ∷ ws) [] a h = absurd a
  concat_positive (w ∷ ws) (l ∷ ls) ((p, _, e, _, _), a) h =
      omega (arith, length-append l (concat ls), e, p)

  pub read_widths-widths :
      (ws : List ℕ) (ls : List (List Cell)) (rest : List ℕ)
      → AreLines n ws ls
      → read_widths (length ws) (widths ws ++ rest) ≡ ok (ws, rest)
  unfolding read_widths
  read_widths-widths [] [] rest a = refl
  read_widths-widths [] (l ∷ ls) rest a = absurd a
  read_widths-widths (w ∷ ws) [] rest a = absurd a
  read_widths-widths (w ∷ ws) (l ∷ ls) rest ((_, h, _, _, _), a) =
      rw (read_u16-le_u16 w (widths ws ++ rest) h, read_widths-widths ws ls rest a) refl

  pub split_lines-concat :
      (ws : List ℕ) (ls : List (List Cell)) → AreLines n ws ls → split_lines ws (concat ls) ≡ ok ls
  unfolding split_lines
  split_lines-concat [] [] a = refl
  split_lines-concat [] (l ∷ ls) a = absurd a
  split_lines-concat (w ∷ ws) [] a = absurd a
  split_lines-concat (w ∷ ws) (l ∷ ls) ((_, _, e, _, _), a) =
      let fits : ltb (length (l ++ concat ls)) (length l) ≡ false =
        ground (arith, length-append l (concat ls)) in
      rw
        (
          ← e,
          fits,
          drop-append l (concat ls),
          take-append l (concat ls),
          split_lines-concat ws ls a,
        )
        refl

abbrev pub AreWidths : List ℕ → Type 0
AreWidths [] = Unit
AreWidths (w ∷ ws) = (0 < w) × (w < 65536) × AreWidths ws

abbrev pub AreCellLines : List (List Cell) → Type 0
AreCellLines [] = Unit
AreCellLines (l ∷ ls) = AreCells l × AreCellLines ls

pub AreLines-of_lines_fit :
    (n : ℕ) (ws : List ℕ) (ls : List (List Cell))
    → length ls ≡ length ws
    → lines_fit n ws ls ≡ true
    → AreWidths ws
    → AreCellLines ls
    → AreLines n ws ls
AreLines-of_lines_fit n [] [] e h a b = tt
AreLines-of_lines_fit n [] (l ∷ ls) e h a b = absurd (omega (arith, e))
AreLines-of_lines_fit n (w ∷ ws) [] e h a b = absurd (omega (arith, e))
AreLines-of_lines_fit n (w ∷ ws) (l ∷ ls) e h (p, q, a) (b, c) =
    let fits : (length l ≡ w) × (styles_in n l ≡ true) = ground (arith, h) in
    (
      (p, q, fits.0, fits.1, b),
      AreLines-of_lines_fit n ws ls (omega (arith, e)) (ground (arith, h)) a c,
    )
