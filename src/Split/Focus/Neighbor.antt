-- ===== src/Split/Focus/Neighbor.antt =====
-- The neighbor in a direction: `neighbor` of crates/mr-crabs-app/src/model/split.rs.
use mr_crabs.Common.{
  ℕ, ◌≡◌, refl, ◌⊎◌, inl, inr, Bool, true, false, not, ◌||◌, Option, none, some, List, [], ◌∷◌,
  ◌==◌, Bool-cases, lookup, arith,
}
use mr_crabs.Split.Axis.{SplitDirection, GridRect, rect_in_direction}
use mr_crabs.Split.Focus.Nearest.{
  LiesAside, Candidate, NoCandidate, IsBest, score-Measures, lies_aside, no_better,
}
use mr_crabs.Split.Focus.{Score, is_better, score, best_neighbor, neighbor_in}

abbrev excluded : ℕ → GridRect → SplitDirection → ℕ → GridRect → Bool
excluded from from_rect direction p r = (p == from) || not (rect_in_direction from_rect r direction)

module _ (from : ℕ) (from_rect : GridRect) (direction : SplitDirection) where
  -- A pane of the map other than `from` that lies in the direction, with its score.
  data Scored : List (ℕ × GridRect) → Score → Type 0 where
    here :
        {p : ℕ} {r : GridRect} {m : List (ℕ × GridRect)}
        → excluded from from_rect direction p r ≡ false
        → Scored ((p, r) ∷ m) (score from_rect direction p r)
    there :
        {p : ℕ} {r : GridRect} {m : List (ℕ × GridRect)} {s : Score}
        → Scored m s
        → Scored ((p, r) ∷ m) s

  -- No candidate of the map beats the score; none at all, if there is no score.
  abbrev NoneBetter : Option Score → List (ℕ × GridRect) → Type 0
  NoneBetter best [] = Unit
  NoneBetter best ((p, r) ∷ m) =
      ((excluded from from_rect direction p r ≡ true)
        ⊎ (is_better (score from_rect direction p r) best ≡ false))
      × NoneBetter best m

-- The order of the scores is transitive: what does not beat the old best does not beat a better one.
is_better_trans :
    (x c : Score) (best : Option Score)
    → is_better x best ≡ false
    → is_better c best ≡ true
    → is_better x (some c) ≡ false
is_better_trans x c none h k = cc
is_better_trans x c (some b) h k = ground arith

is_better_irrefl : (c : Score) → is_better c (some c) ≡ false
is_better_irrefl c = ground arith

module _ (from : ℕ) (from_rect : GridRect) (direction : SplitDirection) where
  -- What the loop makes of the best score before it.
  record Outcome (best res : Option Score) (m : List (ℕ × GridRect)) : Type 0 where
    none_better : NoneBetter from from_rect direction res m
    kept : (x : Score) → is_better x best ≡ false → is_better x res ≡ false
    source : (res ≡ best) ⊎ ((s : Score) × (res ≡ some s) × Scored from from_rect direction m s)

  there_source :
      (best res : Option Score) (p : ℕ) (r : GridRect) (m : List (ℕ × GridRect))
      → (res ≡ best) ⊎ ((s : Score) × (res ≡ some s) × Scored from from_rect direction m s)
      → (res ≡ best)
        ⊎ ((s : Score) × (res ≡ some s) × Scored from from_rect direction ((p, r) ∷ m) s)
  there_source best res p r m (inl e) = inl e
  there_source best res p r m (inr (s, e, c)) = inr (s, e, there c)

  head_source :
      (res : Option Score) (best : Option Score) (p : ℕ) (r : GridRect) (m : List (ℕ × GridRect))
      → excluded from from_rect direction p r ≡ false
      → (res ≡ some (score from_rect direction p r))
        ⊎ ((s : Score) × (res ≡ some s) × Scored from from_rect direction m s)
      → (res ≡ best)
        ⊎ ((s : Score) × (res ≡ some s) × Scored from from_rect direction ((p, r) ∷ m) s)
  head_source res best p r m fits (inl e) = inr (score from_rect direction p r, e, here fits)
  head_source res best p r m fits (inr (s, e, c)) = inr (s, e, there c)

  best_neighbor-Outcome :
      (best : Option Score) (m : List (ℕ × GridRect))
      → Outcome best (best_neighbor from from_rect direction best m) m
  unfolding best_neighbor
  best_neighbor-Outcome best [] = record { none_better = tt; kept = λ x h. h; source = inl refl }
  best_neighbor-Outcome best ((p, r) ∷ m) =
      elim (Bool-cases (excluded from from_rect direction p r)) [
        | inl out ↦ rw out (skip (inl out) (best_neighbor-Outcome best m))
        | inr fits ↦ elim (Bool-cases (is_better (score from_rect direction p r) best)) [
          | inr worse ↦
              let o = best_neighbor-Outcome best m in
              rw (fits, worse) (skip (inr (o.kept _ worse)) o)
          | inl better ↦ rw (fits, better) (replace fits better (best_neighbor-Outcome (some c) m))
        ]
      ]
    where
      c : Score
      c = score from_rect direction p r

      skip :
          {res : Option Score}
          → ((excluded from from_rect direction p r ≡ true) ⊎ (is_better c res ≡ false))
          → Outcome best res m
          → Outcome best res ((p, r) ∷ m)
      skip {res} h o = record {
        none_better = (h, o.none_better);
        kept = o.kept;
        source = there_source best res p r m o.source;
      }

      replace :
          {res : Option Score}
          → excluded from from_rect direction p r ≡ false
          → is_better c best ≡ true
          → Outcome (some c) res m
          → Outcome best res ((p, r) ∷ m)
      replace {res} fits better o = record {
        none_better = (inr (o.kept c (is_better_irrefl c)), o.none_better);
        kept = λ x h. o.kept x (is_better_trans x c best h better);
        source = head_source res best p r m fits o.source;
      }

  candidate :
      {m : List (ℕ × GridRect)} {s : Score}
      → Scored from from_rect direction m s
      → Candidate from from_rect direction m s
  candidate (Scored.here {p} {r} {m} fits) =
      Candidate.here (ground (arith, fits))
        (score-Measures direction from_rect p r (ground (arith, fits)))
  candidate (Scored.there c) = Candidate.there (candidate c)

  out_of_count :
      (p : ℕ) (r : GridRect)
      → excluded from from_rect direction p r ≡ true
      → (p ≡ from) ⊎ LiesAside direction from_rect r
  out_of_count p r out = elim (Bool-cases (rect_in_direction from_rect r direction)) [
    | inl lies ↦ inl (ground (arith, out, lies))
    | inr aside ↦ inr (lies_aside direction from_rect r aside)
  ]

  no_candidate :
      (m : List (ℕ × GridRect))
      → NoneBetter from from_rect direction none m
      → NoCandidate from from_rect direction m
  no_candidate [] h = tt
  no_candidate ((p, r) ∷ m) (inl out, rest) = (out_of_count p r out, no_candidate m rest)
  no_candidate ((p, r) ∷ m) (inr worse, rest) = absurd (cc worse)

  is_best :
      (best : Score) (m : List (ℕ × GridRect))
      → NoneBetter from from_rect direction (some best) m
      → IsBest from from_rect direction best m
  is_best best [] h = tt
  is_best best ((p, r) ∷ m) (h, rest) = elim (Bool-cases (excluded from from_rect direction p r)) [
    | inl out ↦ (
      elim (out_of_count p r out) [ inl same ↦ inl same | inr aside ↦ inr (inl aside) ],
      is_best best m rest,
    )
    | inr fits ↦ elim h [
      | inl out ↦ absurd (cc (out, fits))
      | inr worse ↦ (
        inr (
            inr (
              score from_rect direction p r,
              score-Measures direction from_rect p r (ground (arith, fits)),
              no_better (score from_rect direction p r) best worse,
            )),
        is_best best m rest,
      )
    ]
  ]

  -- In a map that has `from`, `neighbor` picks a pane other than `from` that lies wholly in the
  -- direction, one with the most rows or columns in common with `from` across the direction; among
  -- those one with the smallest gap, and among those the first in the order of panes. It gives none
  -- only if no other pane of the map lies in the direction.
  pub neighbor_in-IsBest :
      (m : List (ℕ × GridRect))
      → lookup from m ≡ some from_rect
      → ((neighbor_in m from direction ≡ none) × NoCandidate from from_rect direction m)
        ⊎ ((s : Score) × (neighbor_in m from direction ≡ some s.pane)
            × Candidate from from_rect direction m s
            × IsBest from from_rect direction s m)
  unfolding neighbor_in
  neighbor_in-IsBest m h =
      let o = best_neighbor-Outcome none m in
      elim o.source [
        | inl e ↦ inl (rw (h, e), no_candidate m (rw e at o.none_better))
        | inr (s, e, c) ↦ inr (s, rw (h, e), candidate c, is_best s m (rw e at o.none_better))
      ]
