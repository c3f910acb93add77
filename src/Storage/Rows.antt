-- ===== src/Storage/Rows.antt =====
-- The lines of a buffer of cells: crates/mr-crabs-terminal/src/storage.rs.
use mr_crabs.Common.{
  map, true, ◌==◌, ℕ, zero, suc, ◌+◌, ◌-◌, ◌*◌, ◌≤◌, ◌<◌, ◌≡◌, refl, ap, sym, ◌∙◌, some, List, [],
  ◌∷◌, ◌++◌, take, drop, length, length-append, append_assoc, get_elem?, arith,
}
use mr_crabs.Grid.{Cell}
use mr_crabs.Persist.Bytes.{take-append, drop-append}
use mr_crabs.Persist.Cutting.{take-drop-append}
use mr_crabs.Persist.Format.{concat}
use mr_crabs.Storage.{RowDesc, rows}

pub suc_mul : (n c : ℕ) → suc n * c ≡ c + n * c
suc_mul n c = grind arith

zero_mul : (c : ℕ) → 0 * c ≡ 0
zero_mul c = omega arith

zero_add : (n : ℕ) → 0 + n ≡ n
zero_add n = omega arith

suc_add : (n m : ℕ) → suc n + m ≡ suc (n + m)
suc_add n m = omega arith

module _ {ℓ} {A : Type ℓ} where
  drop-nil : (n : ℕ) → drop {A = A} n [] ≡ []
  drop-nil zero = refl
  drop-nil (suc n) = refl

  pub drop-drop : (m n : ℕ) (xs : List A) → drop m (drop n xs) ≡ drop (n + m) xs
  drop-drop m zero xs = ap (λ k. drop k xs) (sym (zero_add m))
  drop-drop m (suc n) [] = drop-nil m ∙ sym (drop-nil (suc n + m))
  drop-drop m (suc n) (x ∷ xs) = drop-drop m n xs ∙ ap (λ k. drop k (x ∷ xs)) (sym (suc_add n m))

  pub take-append_le : (n : ℕ) (xs ys : List A) → n ≤ length xs → take n (xs ++ ys) ≡ take n xs
  take-append_le zero xs ys h = refl
  take-append_le (suc n) [] ys h = absurd (omega (arith, h))
  take-append_le (suc n) (x ∷ xs) ys h = ap (x ∷◌) (take-append_le n xs ys (omega (arith, h)))

  pub drop-append_le :
      (n : ℕ) (xs ys : List A) → n ≤ length xs → drop n (xs ++ ys) ≡ drop n xs ++ ys
  drop-append_le zero xs ys h = refl
  drop-append_le (suc n) [] ys h = absurd (omega (arith, h))
  drop-append_le (suc n) (x ∷ xs) ys h = drop-append_le n xs ys (omega (arith, h))

  pub length-drop : (n : ℕ) (xs : List A) → length (drop n xs) ≡ length xs - n
  length-drop zero xs = omega arith
  length-drop (suc n) [] = omega arith
  length-drop (suc n) (x ∷ xs) = omega (arith, length-drop n xs)

  pub length-take : (n : ℕ) (xs : List A) → n ≤ length xs → length (take n xs) ≡ n
  length-take zero xs h = refl
  length-take (suc n) [] h = absurd (omega (arith, h))
  length-take (suc n) (x ∷ xs) h = omega (arith, length-take n xs (omega (arith, h)))

pub take_all {ℓ} : {A : Type ℓ} (n : ℕ) (xs : List A) → length xs ≤ n → take n xs ≡ xs
take_all zero [] h = refl
take_all zero (x ∷ xs) h = absurd (omega (arith, h))
take_all (suc n) [] h = refl
take_all (suc n) (x ∷ xs) h = ap (x ∷◌) (take_all n xs (omega (arith, h)))

pub length-cells : (ds : List RowDesc) → length (map (λ (d : RowDesc). d.cells) ds) ≡ length ds
length-cells [] = refl
length-cells (d ∷ ds) = omega (arith, length-cells ds)

pub eq_self : (n : ℕ) → (n == n) ≡ true
eq_self n = ground arith

module _ (c : ℕ) where
  pub length-rows : (n : ℕ) (buf : List Cell) → length (rows c n buf) ≡ n
  length-rows zero buf = refl
  length-rows (suc n) buf = omega (arith, length-rows n (drop c buf))

  pub rows-append :
      (n : ℕ) (xs ys : List Cell) → n * c ≤ length xs → rows c n (xs ++ ys) ≡ rows c n xs
  rows-append zero xs ys h = refl
  rows-append (suc n) xs ys h =
      let enough : c + n * c ≤ length xs = omega (arith, h, suc_mul n c) in
      rw
        (
          take-append_le c xs ys (omega (arith, enough)),
          drop-append_le c xs ys (omega (arith, enough)),
          rows-append n (drop c xs) ys (omega (arith, enough, length-drop c xs)),
        )
        refl

  pub rows-take :
      (n : ℕ) (xs : List Cell) → n * c ≤ length xs → rows c n (take (n * c) xs) ≡ rows c n xs
  rows-take n xs h =
      sym (
        rows-append n (take (n * c) xs) (drop (n * c) xs) (omega (arith, length-take (n * c) xs h)))
      ∙ ap (λ ys. rows c n ys) (take-drop-append (n * c) xs)

  pub rows-drop :
      (d n : ℕ) (buf : List Cell) → rows c n (drop (d * c) buf) ≡ drop d (rows c (d + n) buf)
  rows-drop zero n buf = rw (zero_mul c, zero_add n) refl
  rows-drop (suc d) n buf =
      let step : drop (suc d * c) buf ≡ drop (d * c) (drop c buf) =
        ap (λ k. drop k buf) (suc_mul d c) ∙ sym (drop-drop (d * c) c buf) in
      rw (step, suc_add d n) (rows-drop d n (drop c buf))

  pub take-rows : (k n : ℕ) (buf : List Cell) → take k (rows c (k + n) buf) ≡ rows c k buf
  take-rows zero n buf = refl
  take-rows (suc k) n buf = rw (suc_add k n, take-rows k n (drop c buf)) refl

  pub get_elem?-rows :
      (n i : ℕ) (buf : List Cell)
      → i < n
      → get_elem? (rows c n buf) i ≡ some (take c (drop (i * c) buf))
  get_elem?-rows zero i buf h = absurd (omega (arith, h))
  get_elem?-rows (suc n) zero buf h = rw (zero_mul c) refl
  get_elem?-rows (suc n) (suc i) buf h =
      get_elem?-rows n i (drop c buf) (omega (arith, h))
      ∙ ap (λ xs. some (take c xs))
          (drop-drop (i * c) c buf ∙ ap (λ k. drop k buf) (sym (suc_mul i c)))

  -- Lines of the width, one behind another.
  abbrev pub AllLong : List (List Cell) → Type 0
  AllLong [] = Unit
  AllLong (l ∷ ls) = (length l ≡ c) × AllLong ls

  pub rows-concat :
      (ls : List (List Cell)) (rest : List Cell)
      → AllLong ls
      → rows c (length ls) (concat ls ++ rest) ≡ ls
  rows-concat [] rest h = refl
  rows-concat (l ∷ ls) rest h =
      let front : take c (l ++ concat ls ++ rest) ≡ l =
        ap (λ k. take k (l ++ concat ls ++ rest)) (sym h.0)
        ∙ ap (λ xs. take (length l) xs) (append_assoc l (concat ls) rest)
        ∙ take-append l (concat ls ++ rest) in
      let back : drop c (l ++ concat ls ++ rest) ≡ concat ls ++ rest =
        ap (λ k. drop k (l ++ concat ls ++ rest)) (sym h.0)
        ∙ ap (λ xs. drop (length l) xs) (append_assoc l (concat ls) rest)
        ∙ drop-append l (concat ls ++ rest) in
      rw (front, back, rows-concat ls rest h.1) refl

pub add_mul : (n k c : ℕ) → (n + k) * c ≡ n * c + k * c
add_mul n k c = grind arith

pub mul_le : (n k c : ℕ) → n ≤ k → n * c ≤ k * c
mul_le n k c h = grind arith

module _ (c n k : ℕ) (buf filler : List Cell) (room : (n + k) * c ≤ length buf) where
  -- The lines from the `n`th on, moved to the front.
  pub rows-shift :
      rows c k (take (k * c) (drop (n * c) buf) ++ filler) ≡ drop n (rows c (n + k) buf)
  rows-shift =
      let enough : k * c ≤ length (drop (n * c) buf) =
        omega (arith, room, add_mul n k c, length-drop (n * c) buf) in
      rows-append c k _ filler (omega (arith, length-take (k * c) (drop (n * c) buf) enough))
      ∙ rows-take c k (drop (n * c) buf) enough
      ∙ rows-drop c n k buf

  pub length-shift : length (take (k * c) (drop (n * c) buf) ++ filler) ≡ k * c + length filler
  length-shift =
      let enough : k * c ≤ length (drop (n * c) buf) =
        omega (arith, room, add_mul n k c, length-drop (n * c) buf) in
      omega (
        arith,
        length-append (take (k * c) (drop (n * c) buf)) filler,
        length-take (k * c) (drop (n * c) buf) enough,
      )
