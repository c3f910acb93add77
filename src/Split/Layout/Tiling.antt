-- ===== src/Split/Layout/Tiling.antt =====
-- The rectangles of `rects` (crates/mr-crabs-app/src/model/split.rs) tile the grid.
use mr_crabs.Common.{
  ℕ, ◌+◌, ◌-◌, ◌≤◌, ◌<◌, ◌≡◌, refl, ◌⊎◌, inl, inr, true, false, ◌&&◌, ◌||◌, none, some, List, [],
  ◌∷◌, leb, ltb, if◌then◌else◌, Bool-cases, Option-cases, contains, contains-append, Distinct,
  Distinct-append, insert, keys, contains-keys-insert, arith,
}
use mr_crabs.Split.Axis.{SplitAxis, GridRect, GridSize}
use mr_crabs.Split.Float.{Float32, IsRatio, IsIeee}
use mr_crabs.Split.Tree.{SplitTree, leaf, split}
use mr_crabs.Split.Tree.Panes.{leaves}
use mr_crabs.Split.Layout.{
  first_bounds, second_bounds, side, bounds_of_size, first_extent, collect_rects, rects,
}
use mr_crabs.Split.Layout.Extent.{first_extent_bounds, first_extent_narrow}

-- 1 if the cell lies in the rectangle, else 0.
abbrev pub hit : ℕ → ℕ → GridRect → ℕ
hit px py b =
    if leb b.x px && (ltb px (b.x + b.width) && (leb b.y py && ltb py (b.y + b.height)))
    then 1
    else 0

-- How many rectangles of the map the cell lies in.
abbrev pub covering : ℕ → ℕ → List (ℕ × GridRect) → ℕ
covering px py [] = 0
covering px py ((_, b) ∷ m) = hit px py b + covering px py m

covering-insert :
    (px py p : ℕ) (b : GridRect) (m : List (ℕ × GridRect))
    → contains (keys m) p ≡ false
    → covering px py (insert p b m) ≡ covering px py m + hit px py b
covering-insert px py p b [] h = omega arith
covering-insert px py p b ((j, c) ∷ m) h = ground (arith, covering-insert px py p b m)

abbrev pub FitsU16 : GridRect → Type 0
FitsU16 b = (b.x + b.width < 65536) × (b.y + b.height < 65536)

hit-halves :
    (ax : SplitAxis) (b : GridRect) (e px py : ℕ)
    → FitsU16 b
    → 1 ≤ e
    → e ≤ side ax b - 1
    → hit px py (first_bounds ax b e) + hit px py (second_bounds ax b e) ≡ hit px py b
hit-halves SplitAxis.horizontal b e px py fits lo hi = ground arith
hit-halves SplitAxis.vertical b e px py fits lo hi = ground arith

FitsU16-first :
    (ax : SplitAxis) (b : GridRect) (e : ℕ)
    → FitsU16 b
    → e ≤ side ax b - 1
    → FitsU16 (first_bounds ax b e)
FitsU16-first SplitAxis.horizontal b e fits hi = omega arith
FitsU16-first SplitAxis.vertical b e fits hi = omega arith

FitsU16-second :
    (ax : SplitAxis) (b : GridRect) (e : ℕ)
    → FitsU16 b
    → 1 ≤ e
    → e ≤ side ax b - 1
    → FitsU16 (second_bounds ax b e)
FitsU16-second SplitAxis.horizontal b e fits lo hi = omega arith
FitsU16-second SplitAxis.vertical b e fits lo hi = omega arith

module _ (f : Float32) where
  -- Every ratio of the tree is within `[RATIO_MIN, RATIO_MAX]`.
  abbrev pub HasRatios : SplitTree f.Carrier → Type 0
  HasRatios (leaf _) = Unit
  HasRatios (split _ r first second) = IsRatio f r × HasRatios first × HasRatios second

  -- Some split is given fewer than two cells along its axis.
  pub data Narrow : SplitTree f.Carrier → GridRect → Type 0 where
    here :
        (ax : SplitAxis) (r : f.Carrier) (first second : SplitTree f.Carrier) (b : GridRect)
        → side ax b < 2
        → Narrow (split ax r first second) b
    in_first :
        (ax : SplitAxis) (r : f.Carrier) (first second : SplitTree f.Carrier) (b : GridRect) (e : ℕ)
        → first_extent f (side ax b) r ≡ some e
        → Narrow first (first_bounds ax b e)
        → Narrow (split ax r first second) b
    in_second :
        (ax : SplitAxis) (r : f.Carrier) (first second : SplitTree f.Carrier) (b : GridRect) (e : ℕ)
        → first_extent f (side ax b) r ≡ some e
        → Narrow second (second_bounds ax b e)
        → Narrow (split ax r first second) b

  -- The map `m` adds to `out` one rectangle for each leaf of the tree, and they tile `b`.
  pub record Tiles (t : SplitTree f.Carrier) (b : GridRect) (out m : List (ℕ × GridRect))
      : Type 0 where
    pub covered : (px py : ℕ) → covering px py m ≡ covering px py out + hit px py b
    pub named : (p : ℕ) → contains (keys m) p ≡ (contains (keys out) p || contains (leaves t) p)

  abbrev Laid : SplitTree f.Carrier → GridRect → List (ℕ × GridRect) → Type 0
  Laid t b out =
      ((m : List (ℕ × GridRect)) × (collect_rects f t b out ≡ some m) × Tiles t b out m)
      ⊎ ((collect_rects f t b out ≡ none) × Narrow t b)

module _ (f : Float32) (laws : IsIeee f) where
  Tiles-split :
      (ax : SplitAxis) (r : f.Carrier) (first second : SplitTree f.Carrier) (b : GridRect) (e : ℕ)
      (out mid m : List (ℕ × GridRect))
      → FitsU16 b
      → 1 ≤ e
      → e ≤ side ax b - 1
      → Tiles f first (first_bounds ax b e) out mid
      → Tiles f second (second_bounds ax b e) mid m
      → Tiles f (split ax r first second) b out m
  Tiles-split ax r first second b e out mid m fits lo hi t u = record {
    covered = λ px py.
        omega (arith, t.covered px py, u.covered px py, hit-halves ax b e px py fits lo hi);
    named =
        λ p. ground (arith, t.named p, u.named p, contains-append p (leaves first) (leaves second));
  }

  side-lt : (ax : SplitAxis) (b : GridRect) → FitsU16 b → side ax b < 65536
  side-lt SplitAxis.horizontal b fits = omega arith
  side-lt SplitAxis.vertical b fits = omega arith

  collect_rects-Laid :
      (t : SplitTree f.Carrier) (b : GridRect) (out : List (ℕ × GridRect))
      → Distinct (leaves t)
      → ((p : ℕ) → contains (leaves t) p ≡ true → contains (keys out) p ≡ false)
      → HasRatios f t
      → FitsU16 b
      → Laid f t b out
  unfolding collect_rects
  collect_rects-Laid (leaf pane) b out d fresh ratios fits = inl (
    insert pane b out,
    refl,
    record {
      covered = λ px py. covering-insert px py pane b out (fresh pane (ground arith));
      named = λ p. ground (arith, contains-keys-insert p pane b out);
    },
  )
  collect_rects-Laid (split ax r first second) b out d fresh ratios fits =
      let (d1, d2, apart) = Distinct-append (leaves first) (leaves second) d in
      elim (Bool-cases (ltb (side ax b) 2)) [
        | inl narrow ↦
            let h : side ax b < 2 = ground arith in
            inr (rw (first_extent_narrow f laws (side ax b) r h), here ax r first second b h)
        | inr wide ↦
            let (e, divides, lo, hi) =
              first_extent_bounds f laws (side ax b) r (ground arith) (side-lt ax b fits)
                ratios.0 in
            elim (collect_rects-Laid first (first_bounds ax b e) out d1
              (λ p h. fresh p (ground (arith, contains-append p (leaves first) (leaves second))))
              ratios.1 (FitsU16-first ax b e fits hi)) [
                | inr (fails, narrow) ↦
                    inr (rw (divides, fails), in_first ax r first second b e divides narrow)
                | inl (mid, lays, t) ↦
                    elim (collect_rects-Laid second (second_bounds ax b e) mid d2
                      (λ p h. ground (
                        arith,
                        t.named p,
                        apart p,
                        fresh p,
                        contains-append p (leaves first) (leaves second),
                      ))
                      ratios.2 (FitsU16-second ax b e fits lo hi)) [
                        | inr (fails, narrow) ↦ inr (
                          rw (divides, lays) fails,
                          in_second ax r first second b e divides narrow,
                        )
                        | inl (m, lays', u) ↦ inl (
                          m,
                          rw (divides, lays) lays',
                          Tiles-split ax r first second b e out mid m fits lo hi t u,
                        )
                      ]
              ]
      ]

  collect_rects-Narrow :
      (t : SplitTree f.Carrier) (b : GridRect) (out : List (ℕ × GridRect))
      → Narrow f t b
      → collect_rects f t b out ≡ none
  unfolding collect_rects
  collect_rects-Narrow _ _ out (here ax r first second b h) =
      rw (first_extent_narrow f laws (side ax b) r h)
  collect_rects-Narrow _ _ out (in_first ax r first second b e divides n) =
      rw (divides, collect_rects-Narrow first (first_bounds ax b e) out n)
  collect_rects-Narrow _ _ out (in_second ax r first second b e divides n) =
      elim (Option-cases (collect_rects f first (first_bounds ax b e) out)) [
        | inl fails ↦ rw (divides, fails)
        | inr (mid, lays) ↦
            rw (divides, lays) (collect_rects-Narrow second (second_bounds ax b e) mid n)
      ]

  -- With distinct panes, ratios in range and a `u16` grid, `rects` either gives every pane a
  -- rectangle such that each cell of the grid lies in exactly one of them and no other cell in any,
  -- or it panics, and some split is given fewer than two cells along its axis.
  pub rects-Tiles :
      (t : SplitTree f.Carrier) (size : GridSize)
      → Distinct (leaves t)
      → HasRatios f t
      → size.cols < 65536
      → size.rows < 65536
      → ((m : List (ℕ × GridRect)) × (rects f t size ≡ some m)
          × Tiles f t (bounds_of_size size) [] m)
        ⊎ ((rects f t size ≡ none) × Narrow f t (bounds_of_size size))
  unfolding rects
  rects-Tiles t size d ratios w h =
      collect_rects-Laid t (bounds_of_size size) [] d (λ p e. refl) ratios
        (omega arith, omega arith)

  -- Every tree that gives some split fewer than two cells along its axis makes `rects` panic.
  pub rects-Narrow :
      (t : SplitTree f.Carrier) (size : GridSize)
      → Narrow f t (bounds_of_size size)
      → rects f t size ≡ none
  unfolding rects
  rects-Narrow t size n = collect_rects-Narrow t (bounds_of_size size) [] n
