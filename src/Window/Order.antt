-- ===== src/Window/Order.antt =====
-- Lists of the identities of tabs: what crates/mr-crabs-app/src/model/window.rs does with them.
use mr_crabs.Common.{
  ℕ, ◌≡◌, refl, sym, ap, subst, ◌∙◌, inl, inr, Bool, true, false, not, ◌&&◌, ◌||◌, Option, none,
  some, List, [], ◌∷◌, ◌++◌, if◌then◌else◌, ◌==◌, leb, Bool-cases, contains, contains-append,
  Distinct, arith,
}

abbrev pub last_of : List ℕ → Option ℕ
last_of [] = none
last_of (a ∷ []) = some a
last_of (_ ∷ b ∷ rest) = last_of (b ∷ rest)

-- `order.retain(|id| *id != a)`.
abbrev pub without : ℕ → List ℕ → List ℕ
without a [] = []
without a (b ∷ bs) = if b == a then without a bs else b ∷ without a bs

-- `sort_unstable`.
abbrev pub insert_sorted : ℕ → List ℕ → List ℕ
insert_sorted a [] = a ∷ []
insert_sorted a (b ∷ bs) = if leb a b then a ∷ b ∷ bs else b ∷ insert_sorted a bs

abbrev pub sort : List ℕ → List ℕ
sort [] = []
sort (a ∷ bs) = insert_sorted a (sort bs)

abbrev pub same_list : List ℕ → List ℕ → Bool
same_list [] [] = true
same_list (a ∷ xs) (b ∷ ys) = if a == b then same_list xs ys else false
same_list _ _ = false

abbrev pub is_active : Option ℕ → ℕ → Bool
is_active none a = false
is_active (some b) a = b == a

pub contains-last_of : (xs : List ℕ) (a : ℕ) → last_of xs ≡ some a → contains xs a ≡ true
contains-last_of [] a e = cc
contains-last_of (x ∷ []) a e = ground arith
contains-last_of (x ∷ y ∷ xs) a e = ground (arith, contains-last_of (y ∷ xs) a e)

pub last_of-none : (xs : List ℕ) → last_of xs ≡ none → xs ≡ []
last_of-none [] e = refl
last_of-none (x ∷ []) e = cc
last_of-none (x ∷ y ∷ xs) e = let h : y ∷ xs ≡ [] = last_of-none (y ∷ xs) e in cc

pub last_of-append : (xs : List ℕ) (a : ℕ) → last_of (xs ++ (a ∷ [])) ≡ some a
last_of-append [] a = refl
last_of-append (x ∷ []) a = refl
last_of-append (x ∷ y ∷ xs) a = last_of-append (y ∷ xs) a

pub contains-without :
    (a x : ℕ) (xs : List ℕ) → contains (without a xs) x ≡ (contains xs x && not (a == x))
contains-without a x [] = refl
contains-without a x (y ∷ xs) = ground (arith, contains-without a x xs)

pub without-Distinct : (a : ℕ) (xs : List ℕ) → Distinct xs → Distinct (without a xs)
without-Distinct a [] d = tt
without-Distinct a (y ∷ xs) d =
    ground (arith, without-Distinct a xs d.1, contains-without a y xs, d.0)

pub Distinct-snoc :
    (xs : List ℕ) (a : ℕ) → Distinct xs → contains xs a ≡ false → Distinct (xs ++ (a ∷ []))
Distinct-snoc [] a d h = (refl, tt)
Distinct-snoc (x ∷ xs) a d h =
    ground (arith, Distinct-snoc xs a d.1, contains-append x xs (a ∷ []), d.0)

contains-insert_sorted :
    (a x : ℕ) (xs : List ℕ) → contains (insert_sorted a xs) x ≡ ((a == x) || contains xs x)
contains-insert_sorted a x [] = refl
contains-insert_sorted a x (y ∷ xs) = ground (arith, contains-insert_sorted a x xs)

pub contains-sort : (xs : List ℕ) (x : ℕ) → contains (sort xs) x ≡ contains xs x
contains-sort [] x = refl
contains-sort (y ∷ xs) x = rw (contains-insert_sorted y x (sort xs), contains-sort xs x) refl

Distinct-of_insert_sorted :
    (a : ℕ) (xs : List ℕ) → Distinct (insert_sorted a xs) → (contains xs a ≡ false) × Distinct xs
Distinct-of_insert_sorted a [] d = (refl, tt)
Distinct-of_insert_sorted a (y ∷ xs) d = elim (Bool-cases (leb a y)) [
  | inl le ↦ ground (arith, d, le)
  | inr gt ↦
      let d' = subst (λ b. Distinct (if b then a ∷ y ∷ xs else y ∷ insert_sorted a xs)) gt d in
      let (absent, rest) = Distinct-of_insert_sorted a xs d'.1 in
      ground (arith, absent, rest, d'.0, contains-insert_sorted a y xs)
]

pub Distinct-of_sort : (xs : List ℕ) → Distinct (sort xs) → Distinct xs
Distinct-of_sort [] d = tt
Distinct-of_sort (y ∷ xs) d =
    let (absent, rest) = Distinct-of_insert_sorted y (sort xs) d in
    (sym (contains-sort xs y) ∙ absent, Distinct-of_sort xs rest)

insert_sorted-Distinct :
    (a : ℕ) (xs : List ℕ) → contains xs a ≡ false → Distinct xs → Distinct (insert_sorted a xs)
insert_sorted-Distinct a [] h d = (refl, tt)
insert_sorted-Distinct a (y ∷ xs) h d =
    ground (arith, insert_sorted-Distinct a xs, d.0, d.1, contains-insert_sorted a y xs)

pub sort-Distinct : (xs : List ℕ) → Distinct xs → Distinct (sort xs)
sort-Distinct [] d = tt
sort-Distinct (y ∷ xs) d =
    insert_sorted-Distinct y (sort xs) (contains-sort xs y ∙ d.0) (sort-Distinct xs d.1)

pub same_list-eq : (xs ys : List ℕ) → same_list xs ys ≡ true → xs ≡ ys
same_list-eq [] [] h = refl
same_list-eq [] (y ∷ ys) h = cc
same_list-eq (x ∷ xs) [] h = cc
same_list-eq (x ∷ xs) (y ∷ ys) h = ground (arith, same_list-eq xs ys)

-- The tab that is active after the loss of `a`.
abbrev pub heir : Option ℕ → ℕ → List ℕ → Option ℕ
heir o a xs = if is_active o a then last_of (without a xs) else o

pub contains-heir :
    (o : Option ℕ) (a : ℕ) (xs : List ℕ) (x : ℕ)
    → ((b : ℕ) → o ≡ some b → contains xs b ≡ true)
    → heir o a xs ≡ some x
    → contains (without a xs) x ≡ true
contains-heir none a xs x h e = cc
contains-heir (some b) a xs x h e = elim (Bool-cases (b == a)) [
  | inl same ↦ contains-last_of (without a xs) x (ground (arith, same, e))
  | inr other ↦ ground (arith, contains-without a x xs, h b refl, other, e)
]

pub heir-none :
    (o : Option ℕ) (a : ℕ) (xs : List ℕ)
    → (o ≡ none → xs ≡ [])
    → heir o a xs ≡ none
    → without a xs ≡ []
heir-none none a xs h e = ap (without a) (h refl)
heir-none (some b) a xs h e = elim (Bool-cases (b == a)) [
  | inl same ↦ last_of-none (without a xs) (ground (arith, same, e))
  | inr other ↦ absurd (ground (arith, other, e))
]

pub none_contained : (xs : List ℕ) → ((a : ℕ) → contains xs a ≡ false) → xs ≡ []
none_contained [] h = refl
none_contained (x ∷ xs) h = let at_x = h x in absurd (ground (arith, at_x))
