-- ===== src/Common/Elems.antt =====
-- The elements of a list by their places: reading, writing and repeating.
use Prim.Native.Nat.{ℕ, zero, suc, ◌+◌, ◌≤◌, ◌<◌}
use mathlib.Core.Path.{◌≡◌, refl}
use mathlib.Core.Bool.{false}
use mathlib.Core.List.{List, [], ◌∷◌, ◌++◌}
use mathlib.Core.Option.{some}
use native.Mathlib.Omega.{arith}
use mr_crabs.Common.Tests.{◌==◌}
use mr_crabs.Common.Lists.{length, get_elem?}

module _ {ℓ} {A : Type ℓ} where
  -- `vec![v; n]`.
  abbrev pub replicate : ℕ → A → List A
  replicate zero v = []
  replicate (suc n) v = v ∷ replicate n v

  -- `xs[i] = v` where `xs` has the place `i`; out of range the list is as it was.
  abbrev pub set_elem : ℕ → A → List A → List A
  set_elem i v [] = []
  set_elem zero v (x ∷ xs) = v ∷ xs
  set_elem (suc i) v (x ∷ xs) = x ∷ set_elem i v xs

  pub get_elem?-last : (xs : List A) (y : A) → get_elem? (xs ++ (y ∷ [])) (length xs) ≡ some y
  get_elem?-last [] y = refl
  get_elem?-last (x ∷ xs) y = get_elem?-last xs y

  pub get_elem?-append :
      (xs ys : List A) (j : ℕ) (x : A) → get_elem? xs j ≡ some x → get_elem? (xs ++ ys) j ≡ some x
  get_elem?-append [] ys j x h = cc
  get_elem?-append (y ∷ xs) ys zero x h = h
  get_elem?-append (y ∷ xs) ys (suc j) x h = get_elem?-append xs ys j x h

  pub length-set_elem : (i : ℕ) (v : A) (xs : List A) → length (set_elem i v xs) ≡ length xs
  length-set_elem i v [] = refl
  length-set_elem zero v (x ∷ xs) = refl
  length-set_elem (suc i) v (x ∷ xs) = omega (arith, length-set_elem i v xs)

  pub get_elem?-set_elem_self :
      (i : ℕ) (v : A) (xs : List A) → i < length xs → get_elem? (set_elem i v xs) i ≡ some v
  get_elem?-set_elem_self i v [] h = ground (arith, h)
  get_elem?-set_elem_self zero v (x ∷ xs) h = refl
  get_elem?-set_elem_self (suc i) v (x ∷ xs) h = get_elem?-set_elem_self i v xs (omega arith)

  pub get_elem?-set_elem_other :
      (i j : ℕ) (v : A) (xs : List A)
      → (i == j) ≡ false
      → get_elem? (set_elem i v xs) j ≡ get_elem? xs j
  get_elem?-set_elem_other i j v [] h = refl
  get_elem?-set_elem_other zero zero v (x ∷ xs) h = cc
  get_elem?-set_elem_other zero (suc j) v (x ∷ xs) h = refl
  get_elem?-set_elem_other (suc i) zero v (x ∷ xs) h = refl
  get_elem?-set_elem_other (suc i) (suc j) v (x ∷ xs) h =
      get_elem?-set_elem_other i j v xs (ground (arith, h))

  pub get_elem?-range : (xs : List A) (j : ℕ) (x : A) → get_elem? xs j ≡ some x → j < length xs
  get_elem?-range [] j x h = cc
  get_elem?-range (y ∷ xs) zero x h = omega arith
  get_elem?-range (y ∷ xs) (suc j) x h = omega (arith, get_elem?-range xs j x h)

  pub length-replicate : (n : ℕ) (v : A) → length (replicate n v) ≡ n
  length-replicate zero v = refl
  length-replicate (suc n) v = omega (arith, length-replicate n v)

  abbrev pub take : ℕ → List A → List A
  take zero xs = []
  take (suc n) [] = []
  take (suc n) (x ∷ xs) = x ∷ take n xs

  abbrev pub drop : ℕ → List A → List A
  drop zero xs = xs
  drop (suc n) [] = []
  drop (suc n) (x ∷ xs) = drop n xs

  pub length-take-drop :
      (i n : ℕ) (xs : List A) → i + n ≤ length xs → length (take n (drop i xs)) ≡ n
  length-take-drop zero zero xs h = refl
  length-take-drop zero (suc n) [] h = absurd (omega (arith, h))
  length-take-drop zero (suc n) (x ∷ xs) h =
      omega (arith, length-take-drop zero n xs (omega (arith, h)))
  length-take-drop (suc i) zero [] h = refl
  length-take-drop (suc i) (suc n) [] h = absurd (omega (arith, h))
  length-take-drop (suc i) n (x ∷ xs) h = length-take-drop i n xs (omega (arith, h))
