-- ===== src/Split/Focus/Cycle.antt =====
-- The cycle of the focus: `next` of crates/mr-crabs-app/src/model/split.rs.
use native.Mathlib.Nat.{mod-eq_of_lt, mod_self}
use mr_crabs.Common.{
  ℕ, zero, suc, ◌+◌, ◌-◌, ◌<◌, ◌≡◌, refl, ◌⊎◌, inl, inr, Bool, true, false, not, none, some, List,
  [], ◌∷◌, if◌then◌else◌, ◌==◌, Bool-cases, length, get_elem?, contains, Distinct, arith,
}
use mr_crabs.Common.Int.{rem_euclid, pos, sub_ℕ}
use mr_crabs.Split.Tree.{SplitTree, panes}
use mr_crabs.Split.Focus.{position, next, next_in}

-- Where the list has the number.
position_of_contains :
    (xs : List ℕ) (p : ℕ)
    → contains xs p ≡ true
    → (i : ℕ) × (position xs p ≡ some i) × (i < length xs)
unfolding position
position_of_contains [] p h = cc
position_of_contains (x ∷ xs) p h = elim (Bool-cases (x == p)) [
  | inl e ↦ (0, rw e, omega arith)
  | inr e ↦
      let (i, at, lt) = position_of_contains xs p (ground arith) in (suc i, rw (e, at), omega arith)
]

position_of_not_contains : (xs : List ℕ) (p : ℕ) → contains xs p ≡ false → position xs p ≡ none
unfolding position
position_of_not_contains [] p h = refl
position_of_not_contains (x ∷ xs) p h = ground (arith, position_of_not_contains xs p)

get_elem?-position : (xs : List ℕ) (p i : ℕ) → position xs p ≡ some i → get_elem? xs i ≡ some p
unfolding position
get_elem?-position [] p i h = cc
get_elem?-position (x ∷ xs) p zero h = ground arith
get_elem?-position (x ∷ xs) p (suc i) h = ground (arith, get_elem?-position xs p i)

get_elem?_of_lt : (xs : List ℕ) (i : ℕ) → i < length xs → (p : ℕ) × (get_elem? xs i ≡ some p)
get_elem?_of_lt [] i h = absurd (omega arith)
get_elem?_of_lt (x ∷ xs) zero h = (x, refl)
get_elem?_of_lt (x ∷ xs) (suc i) h = get_elem?_of_lt xs i (omega arith)

contains-get_elem? : (xs : List ℕ) (i p : ℕ) → get_elem? xs i ≡ some p → contains xs p ≡ true
contains-get_elem? [] i p h = cc
contains-get_elem? (x ∷ xs) zero p h = ground arith
contains-get_elem? (x ∷ xs) (suc i) p h = ground (arith, contains-get_elem? xs i p)

position-get_elem? :
    (xs : List ℕ) (i p : ℕ) → Distinct xs → get_elem? xs i ≡ some p → position xs p ≡ some i
unfolding position
position-get_elem? [] i p d h = cc
position-get_elem? (x ∷ xs) zero p d h = ground arith
position-get_elem? (x ∷ xs) (suc i) p d h =
    ground (arith, position-get_elem? xs i p d.1, contains-get_elem? xs i p h)

-- The index that `next` moves to.
abbrev turn : ℕ → ℕ → Bool → ℕ
turn n i forward = rem_euclid (if forward then pos (i + 1) else sub_ℕ i 1) n

turn_forward : (n i : ℕ) → i < n → turn n i true ≡ (if (i + 1) == n then 0 else i + 1)
turn_forward n i h = elim (Bool-cases ((i + 1) == n)) [
  | inl e ↦ let at_end : i + 1 ≡ n = ground arith in rw (e, at_end) (mod_self n)
  | inr e ↦ rw e (mod-eq_of_lt (ground arith))
]

turn_back : (n i : ℕ) → i < n → turn n i false ≡ (if i == 0 then n - 1 else i - 1)
turn_back n zero h = rw (mod-eq_of_lt h) (omega arith)
turn_back n (suc i) h = ground (arith, mod-eq_of_lt {n = i} {m = n})

turn-lt : (n i : ℕ) (forward : Bool) → i < n → turn n i forward < n
turn-lt n i true h = ground (arith, turn_forward n i h)
turn-lt n i false h = ground (arith, turn_back n i h)

turn-turn : (n i : ℕ) (forward : Bool) → i < n → turn n (turn n i forward) (not forward) ≡ i
turn-turn n i true h =
    let lt = turn-lt n i true h in
    ground (arith, turn_forward n i h, turn_back n (turn n i true) lt)
turn-turn n i false h =
    let lt = turn-lt n i false h in
    ground (arith, turn_back n i h, turn_forward n (turn n i false) lt)

-- In a list of distinct numbers `next_in` gives a number of the list for every number of it, and the
-- opposite move from there comes back; from another number it gives none.
pub next_in-next_in :
    (order : List ℕ) (from : ℕ) (forward : Bool)
    → Distinct order
    → ((contains order from ≡ false) × (next_in order from forward ≡ none))
      ⊎ ((to : ℕ) × (contains order from ≡ true)
          × (contains order to ≡ true)
          × (next_in order from forward ≡ some to)
          × (next_in order to (not forward) ≡ some from))
unfolding next_in
next_in-next_in order from forward d = elim (Bool-cases (contains order from)) [
  | inr absent ↦ inl (absent, rw (position_of_not_contains order from absent))
  | inl present ↦
      let (i, at, lt) = position_of_contains order from present in
      let (to, at') = get_elem?_of_lt order (turn n i forward) (turn-lt n i forward lt) in
      inr (
        to,
        present,
        contains-get_elem? order (turn n i forward) to at',
        rw at at',
        rw (position-get_elem? order (turn n i forward) to d at', turn-turn n i forward lt)
            (get_elem?-position order from i at),
      )
]
  where
    n : ℕ
    n = length order

module _ {F : Type 0} where
  -- In a tree with distinct panes `next` gives a pane of the tree for every pane of it, and the
  -- opposite move from there comes back; from a pane that is not in the tree it gives none.
  pub next-next :
      (t : SplitTree F) (from : ℕ) (forward : Bool)
      → Distinct (panes t)
      → ((contains (panes t) from ≡ false) × (next t from forward ≡ none))
        ⊎ ((to : ℕ) × (contains (panes t) from ≡ true)
            × (contains (panes t) to ≡ true)
            × (next t from forward ≡ some to)
            × (next t to (not forward) ≡ some from))
  unfolding next
  next-next t from forward d = next_in-next_in (panes t) from forward d
