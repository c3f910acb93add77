-- ===== src/Persist/Cutting.antt =====
-- The lines cut into chunks: `chunks` of crates/mr-crabs-history/src/persist.rs.
use mr_crabs.Common.{
  ℕ, zero, suc, ◌-◌, ◌≤◌, ◌<◌, ◌≡◌, refl, sym, ap, subst, ◌∙◌, List, [], ◌∷◌, ◌++◌, length, take,
  drop, arith,
}
use mr_crabs.Grid.{Cell}
use mr_crabs.Persist.Encode.{chunks, div_ceil}
use mr_crabs.Persist.Lines.{AreLines, AreLines-length, AreLines-take, AreLines-drop}

module _ {ℓ} {A : Type ℓ} where
  pub take-drop-append : (k : ℕ) (xs : List A) → take k xs ++ drop k xs ≡ xs
  take-drop-append zero xs = refl
  take-drop-append (suc k) [] = refl
  take-drop-append (suc k) (x ∷ xs) = ap (x ∷◌) (take-drop-append k xs)

  length-drop-suc : (k : ℕ) (x : A) (xs : List A) → length (drop (suc k) (x ∷ xs)) ≤ length xs
  length-drop-suc zero x xs = omega arith
  length-drop-suc (suc k) x [] = omega arith
  length-drop-suc (suc k) x (y ∷ xs) = omega (arith, length-drop-suc k y xs)

  length-drop : (k : ℕ) (xs : List A) → length (drop k xs) ≡ length xs - k
  length-drop zero xs = omega arith
  length-drop (suc k) [] = omega arith
  length-drop (suc k) (x ∷ xs) = omega (arith, length-drop k xs)

  length-take_le : (k : ℕ) (xs : List A) → length (take k xs) ≤ k
  length-take_le zero xs = omega arith
  length-take_le (suc k) [] = omega arith
  length-take_le (suc k) (x ∷ xs) = omega (arith, length-take_le k xs)

  -- All the lines of the chunks.
  abbrev pub join : List (List A) → List A
  join [] = []
  join (c ∷ cs) = c ++ join cs

  empty : (xs : List A) → length xs ≤ 0 → xs ≡ []
  empty [] h = refl
  empty (x ∷ xs) h = absurd (omega arith)

  pub join-chunks :
      (fuel k : ℕ) (xs : List A) → length xs ≤ fuel → join (chunks fuel (suc k) xs) ≡ xs
  join-chunks zero k xs h = sym (empty xs h)
  join-chunks (suc fuel) k [] h = refl
  join-chunks (suc fuel) k (x ∷ xs) h =
      ap (λ ys. take (suc k) (x ∷ xs) ++ ys)
        (join-chunks fuel k (drop (suc k) (x ∷ xs)) (omega (arith, h, length-drop-suc k x xs)))
      ∙ take-drop-append (suc k) (x ∷ xs)

  pub length-chunks :
      (fuel : ℕ) (xs : List A)
      → length xs ≤ fuel
      → length (chunks fuel 1024 xs) ≡ div_ceil (length xs) 1024
  length-chunks zero xs h = rw (empty xs h) refl
  length-chunks (suc fuel) [] h = refl
  length-chunks (suc fuel) (x ∷ xs) h =
      let rest = drop 1024 (x ∷ xs) in
      omega (
        arith,
        length-chunks fuel rest (omega (arith, h, length-drop-suc 1023 x xs)),
        length-drop 1024 (x ∷ xs),
      )

take-length-take :
    {A B : Type 0} (k : ℕ) (xs : List A) (ys : List B)
    → length ys ≡ length xs
    → take (length (take k xs)) ys ≡ take k ys
take-length-take zero xs ys e = refl
take-length-take (suc k) [] [] e = refl
take-length-take (suc k) [] (y ∷ ys) e = absurd (omega (arith, e))
take-length-take (suc k) (x ∷ xs) [] e = absurd (omega (arith, e))
take-length-take (suc k) (x ∷ xs) (y ∷ ys) e =
    ap (y ∷◌) (take-length-take k xs ys (omega (arith, e)))

drop-length-take :
    {A B : Type 0} (k : ℕ) (xs : List A) (ys : List B)
    → length ys ≡ length xs
    → drop (length (take k xs)) ys ≡ drop k ys
drop-length-take zero xs ys e = refl
drop-length-take (suc k) [] [] e = refl
drop-length-take (suc k) [] (y ∷ ys) e = absurd (omega (arith, e))
drop-length-take (suc k) (x ∷ xs) [] e = absurd (omega (arith, e))
drop-length-take (suc k) (x ∷ xs) (y ∷ ys) e = drop-length-take k xs ys (omega (arith, e))

module _ (n : ℕ) where
  -- Chunks of at most 1024 lines, none empty, with the widths of all lines.
  abbrev pub AreChunks : List ℕ → List (List (List Cell)) → Type 0
  AreChunks ws [] = ws ≡ []
  AreChunks ws (c ∷ cs) =
      (0 < length c)
      × (length c ≤ 1024)
      × AreLines n (take (length c) ws) c
      × AreChunks (drop (length c) ws) cs

  no_widths : (ws : List ℕ) (ls : List (List Cell)) → AreLines n ws ls → length ls ≤ 0 → ws ≡ []
  no_widths ws ls a h = empty ws (omega (arith, h, AreLines-length n ws ls a))

  pub chunks-AreChunks :
      (fuel : ℕ) (ws : List ℕ) (ls : List (List Cell))
      → length ls ≤ fuel
      → AreLines n ws ls
      → AreChunks ws (chunks fuel 1024 ls)
  chunks-AreChunks zero ws ls h a = no_widths ws ls a h
  chunks-AreChunks (suc fuel) ws [] h a = no_widths ws [] a (omega arith)
  chunks-AreChunks (suc fuel) ws (l ∷ ls) h a =
      let same = AreLines-length n ws (l ∷ ls) a in
      (
        omega arith,
        length-take_le 1024 (l ∷ ls),
        subst (λ vs. AreLines n vs (take 1024 (l ∷ ls)))
            (sym (take-length-take 1024 (l ∷ ls) ws same)) (AreLines-take n 1024 ws (l ∷ ls) a),
        subst (λ vs. AreChunks vs (chunks fuel 1024 (drop 1024 (l ∷ ls))))
            (sym (drop-length-take 1024 (l ∷ ls) ws same))
            (chunks-AreChunks fuel (drop 1024 ws) (drop 1024 (l ∷ ls))
              (omega (arith, h, length-drop-suc 1023 l ls)) (AreLines-drop n 1024 ws (l ∷ ls) a)),
      )
