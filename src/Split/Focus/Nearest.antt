-- ===== src/Split/Focus/Nearest.antt =====
-- What a neighbor in a direction is, apart from the code of `neighbor` in
-- crates/mr-crabs-app/src/model/split.rs: which panes lie in the direction, how much they have in
-- common with the pane, and how far they are; and that the code's numbers are these.
use mr_crabs.Common.{
  ℕ, ◌≡◌, refl, ◌⊎◌, true, false, some, List, [], ◌∷◌, ◌==◌, arith, ◌+◌, ◌-◌, ◌≤◌, ◌<◌, min, max,
  ◌↔◌,
}
use mr_crabs.Split.Axis.{SplitDirection, GridRect, rect_in_direction}
use mr_crabs.Split.Focus.{Score, is_better, score}

-- Where the rectangle ends; a coordinate stops at 65535.
abbrev pub end_x : GridRect → ℕ
end_x r = min (r.x + r.width) 65535

abbrev pub end_y : GridRect → ℕ
end_y r = min (r.y + r.height) 65535

-- Going in the direction from `from`, `r` begins after `gap` cells.
abbrev pub LiesAt : SplitDirection → GridRect → GridRect → ℕ → Type 0
LiesAt SplitDirection.up from r gap = end_y r + gap ≡ from.y
LiesAt SplitDirection.down from r gap = end_y from + gap ≡ r.y
LiesAt SplitDirection.left from r gap = end_x r + gap ≡ from.x
LiesAt SplitDirection.right from r gap = end_x from + gap ≡ r.x

-- Some of `r` does not lie in the direction.
abbrev pub LiesAside : SplitDirection → GridRect → GridRect → Type 0
LiesAside SplitDirection.up from r = from.y < end_y r
LiesAside SplitDirection.down from r = r.y < end_y from
LiesAside SplitDirection.left from r = from.x < end_x r
LiesAside SplitDirection.right from r = r.x < end_x from

-- What `a` to before `b` and `c` to before `d` have in common is a stretch of `n` numbers.
abbrev pub HaveInCommon : ℕ → ℕ → ℕ → ℕ → ℕ → Type 0
HaveInCommon a b c d n =
    (lo : ℕ) × ((k : ℕ) → ((a ≤ k) × (k < b) × (c ≤ k) × (k < d)) ↔ ((lo ≤ k) × (k < lo + n)))

-- The columns, or the rows, that both rectangles have, across the direction.
abbrev pub SharesAcross : SplitDirection → GridRect → GridRect → ℕ → Type 0
SharesAcross SplitDirection.up from r n = HaveInCommon from.x (end_x from) r.x (end_x r) n
SharesAcross SplitDirection.down from r n = HaveInCommon from.x (end_x from) r.x (end_x r) n
SharesAcross SplitDirection.left from r n = HaveInCommon from.y (end_y from) r.y (end_y r) n
SharesAcross SplitDirection.right from r n = HaveInCommon from.y (end_y from) r.y (end_y r) n

-- The pane lies in the direction, and the score has its overlap and its gap.
pub record Measures (direction : SplitDirection) (from_rect : GridRect) (p : ℕ) (r : GridRect)
    (s : Score) : Type 0 where
  pub same_pane : s.pane ≡ p
  pub gap : LiesAt direction from_rect r s.gap
  pub overlap : SharesAcross direction from_rect r s.overlap

-- The first score has more overlap, or as much and a smaller gap, or the same of both and a pane that
-- is no later.
abbrev pub IsAtLeast : Score → Score → Type 0
IsAtLeast b s =
    (s.overlap < b.overlap)
    ⊎ ((s.overlap ≡ b.overlap) × (b.gap < s.gap))
    ⊎ ((s.overlap ≡ b.overlap) × (b.gap ≡ s.gap) × (b.pane ≤ s.pane))

module _ (from : ℕ) (from_rect : GridRect) (direction : SplitDirection) where
  -- A pane of the map other than `from` that lies in the direction, with its score.
  pub data Candidate : List (ℕ × GridRect) → Score → Type 0 where
    here :
        {p : ℕ} {r : GridRect} {m : List (ℕ × GridRect)} {s : Score}
        → (p == from) ≡ false
        → Measures direction from_rect p r s
        → Candidate ((p, r) ∷ m) s
    there :
        {p : ℕ} {r : GridRect} {m : List (ℕ × GridRect)} {s : Score}
        → Candidate m s
        → Candidate ((p, r) ∷ m) s

  -- No pane of the map other than `from` lies in the direction.
  abbrev pub NoCandidate : List (ℕ × GridRect) → Type 0
  NoCandidate [] = Unit
  NoCandidate ((p, r) ∷ m) = ((p ≡ from) ⊎ LiesAside direction from_rect r) × NoCandidate m

  -- Every pane of the map is `from`, lies aside, or has a score that the given one is at least.
  abbrev pub IsBest : Score → List (ℕ × GridRect) → Type 0
  IsBest best [] = Unit
  IsBest best ((p, r) ∷ m) =
      ((p ≡ from)
        ⊎ LiesAside direction from_rect r
        ⊎ ((s : Score) × Measures direction from_rect p r s × IsAtLeast best s))
      × IsBest best m

-- The code's numbers are those of the description.
shared : (a b c d : ℕ) → HaveInCommon a b c d (min b d - max a c)
shared a b c d = (max a c, λ k. (λ h. omega arith, λ h. omega arith))

pub score-Measures :
    (direction : SplitDirection) (from_rect : GridRect) (p : ℕ) (r : GridRect)
    → rect_in_direction from_rect r direction ≡ true
    → Measures direction from_rect p r (score from_rect direction p r)
score-Measures SplitDirection.up f p r h = record {
  same_pane = refl;
  gap = ground (arith, h);
  overlap = shared f.x (end_x f) r.x (end_x r);
}
score-Measures SplitDirection.down f p r h = record {
  same_pane = refl;
  gap = ground (arith, h);
  overlap = shared f.x (end_x f) r.x (end_x r);
}
score-Measures SplitDirection.left f p r h = record {
  same_pane = refl;
  gap = ground (arith, h);
  overlap = shared f.y (end_y f) r.y (end_y r);
}
score-Measures SplitDirection.right f p r h = record {
  same_pane = refl;
  gap = ground (arith, h);
  overlap = shared f.y (end_y f) r.y (end_y r);
}

pub lies_aside :
    (direction : SplitDirection) (from_rect r : GridRect)
    → rect_in_direction from_rect r direction ≡ false
    → LiesAside direction from_rect r
lies_aside SplitDirection.up f r h = ground (arith, h)
lies_aside SplitDirection.down f r h = ground (arith, h)
lies_aside SplitDirection.left f r h = ground (arith, h)
lies_aside SplitDirection.right f r h = ground (arith, h)

pub no_better : (c b : Score) → is_better c (some b) ≡ false → IsAtLeast b c
no_better c b h = ground (arith, h)
