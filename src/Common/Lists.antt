-- ===== src/Common/Lists.antt =====
-- Lists measured and indexed by native numbers, under the library's names, and lists of numbers
-- without repetition.
use Prim.Native.Nat.{ℕ, zero, suc, ◌+◌}
use mathlib.Core.Path.{◌≡◌, refl}
use mathlib.Core.Bool.{Bool, true, false, ◌||◌, ◌&&◌, not}
use mathlib.Core.List.{List, [], ◌∷◌, ◌++◌}
use mathlib.Core.Option.{Option, none, some}
use native.Mathlib.Omega.{arith}
use mr_crabs.Common.Tests.{◌==◌, if◌then◌else◌}

module _ {ℓ} {A : Type ℓ} where
  abbrev pub length : List A → ℕ
  length [] = 0
  length (x ∷ xs) = suc (length xs)

  abbrev pub get_elem? : List A → ℕ → Option A
  get_elem? [] i = none
  get_elem? (x ∷ xs) zero = some x
  get_elem? (x ∷ xs) (suc i) = get_elem? xs i

  pub length-append : (xs ys : List A) → length (xs ++ ys) ≡ length xs + length ys
  length-append [] ys = omega arith
  length-append (x ∷ xs) ys = omega (arith, length-append xs ys)

abbrev pub contains : List ℕ → ℕ → Bool
contains [] a = false
contains (x ∷ xs) a = (x == a) || contains xs a

-- No number stands twice in the list.
abbrev pub Distinct : List ℕ → Type 0
Distinct [] = Unit
Distinct (x ∷ xs) = (contains xs x ≡ false) × Distinct xs

module _ (a : ℕ) where
  pub contains-append : (xs ys : List ℕ) → contains (xs ++ ys) a ≡ (contains xs a || contains ys a)
  contains-append [] ys = refl
  contains-append (x ∷ xs) ys = ground (arith, contains-append xs ys)

  -- The list without the first occurrence of the number.
  abbrev pub erase : List ℕ → List ℕ
  erase [] = []
  erase (x ∷ xs) = if x == a then xs else x ∷ erase xs

  pub erase_of_not_contains : (xs : List ℕ) → contains xs a ≡ false → erase xs ≡ xs
  erase_of_not_contains [] h = refl
  erase_of_not_contains (x ∷ xs) h = ground (arith, erase_of_not_contains xs)

  pub erase-append_left :
      (xs ys : List ℕ) → contains xs a ≡ true → erase (xs ++ ys) ≡ erase xs ++ ys
  erase-append_left [] ys h = cc
  erase-append_left (x ∷ xs) ys h = ground (arith, erase-append_left xs ys)

  pub erase-append_right :
      (xs ys : List ℕ) → contains xs a ≡ false → erase (xs ++ ys) ≡ xs ++ erase ys
  erase-append_right [] ys h = refl
  erase-append_right (x ∷ xs) ys h = ground (arith, erase-append_right xs ys)

  -- The list with a number put behind the first occurrence of `a`.
  abbrev pub insert_after : ℕ → List ℕ → List ℕ
  insert_after b [] = []
  insert_after b (x ∷ xs) = if x == a then x ∷ b ∷ xs else x ∷ insert_after b xs

  pub insert_after-append_left :
      (b : ℕ) (xs ys : List ℕ)
      → contains xs a ≡ true
      → insert_after b (xs ++ ys) ≡ insert_after b xs ++ ys
  insert_after-append_left b [] ys h = cc
  insert_after-append_left b (x ∷ xs) ys h = ground (arith, insert_after-append_left b xs ys)

  pub insert_after-append_right :
      (b : ℕ) (xs ys : List ℕ)
      → contains xs a ≡ false
      → insert_after b (xs ++ ys) ≡ xs ++ insert_after b ys
  insert_after-append_right b [] ys h = refl
  insert_after-append_right b (x ∷ xs) ys h = ground (arith, insert_after-append_right b xs ys)

  pub insert_after_of_not_contains :
      (b : ℕ) (xs : List ℕ) → contains xs a ≡ false → insert_after b xs ≡ xs
  insert_after_of_not_contains b [] h = refl
  insert_after_of_not_contains b (x ∷ xs) h = ground (arith, insert_after_of_not_contains b xs)

pub Distinct-append :
    (xs ys : List ℕ)
    → Distinct (xs ++ ys)
    → Distinct xs × Distinct ys × ((a : ℕ) → contains xs a ≡ true → contains ys a ≡ false)
Distinct-append [] ys d = (tt, d, λ a h. cc)
Distinct-append (x ∷ xs) ys d =
    let (dx, dy, apart) = Distinct-append xs ys d.1 in
    ((ground (arith, d.0, contains-append x xs ys), dx), dy, λ a h. split a h apart)
  where
    split :
        (a : ℕ)
        → contains (x ∷ xs) a ≡ true
        → ((a : ℕ) → contains xs a ≡ true → contains ys a ≡ false)
        → contains ys a ≡ false
    split a h apart = ground (arith, apart a, d.0, contains-append x xs ys)

module _ (a b : ℕ) where
  pub contains-insert_after :
      (x : ℕ) (xs : List ℕ)
      → contains (insert_after a b xs) x ≡ (contains xs x || ((b == x) && contains xs a))
  contains-insert_after x [] = ground arith
  contains-insert_after x (y ∷ xs) = ground (arith, contains-insert_after x xs)

  pub insert_after-Distinct :
      (xs : List ℕ) → Distinct xs → contains xs b ≡ false → Distinct (insert_after a b xs)
  insert_after-Distinct [] d h = tt
  insert_after-Distinct (y ∷ xs) d h =
      ground (arith, insert_after-Distinct xs d.1, contains-insert_after y xs)

pub contains-erase :
    (a x : ℕ) (xs : List ℕ)
    → Distinct xs
    → contains (erase a xs) x ≡ (contains xs x && not (a == x))
contains-erase a x [] d = refl
contains-erase a x (y ∷ xs) d = ground (arith, contains-erase a x xs d.1)

pub erase-Distinct : (a : ℕ) (xs : List ℕ) → Distinct xs → Distinct (erase a xs)
erase-Distinct a [] d = tt
erase-Distinct a (y ∷ xs) d = ground (arith, erase-Distinct a xs d.1, contains-erase a y xs d.1)
