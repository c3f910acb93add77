-- ===== src/SideTables/Stable.antt =====
-- Interned values keep their numbers: `intern` and `get` of the tables of
-- crates/mr-crabs-terminal/src/side_tables.rs.
use mr_crabs.Common.{
  ℕ, ◌<◌, ◌≡◌, refl, ◌⊎◌, inl, inr, none, some, Option, List, [], ◌∷◌, ◌++◌, length,
}
use mr_crabs.SideTables.Index.{Equality, find, IsIndexed}
use mr_crabs.SideTables.Styles.{StyleTable, intern, get}
use mr_crabs.SideTables.Clusters.{GraphemeTable, clusters, u32_max, intern_cluster, get_cluster}
use mr_crabs.SideTables.Interning.{intern_in-Interned, intern_in_again}

module _ {S : Type 0} (E : Equality S) where
  -- What `intern` makes of the table: the table `u` with the number of the style, or a panic.
  abbrev pub Interns : StyleTable S → S → Option (StyleTable S × ℕ) → Type 0
  Interns t s r =
      ((u : StyleTable S) × (id : ℕ) × (r ≡ some (u, id))
        × IsIndexed E u.styles u.index
        × (get u id ≡ some s)
        × (intern E u s ≡ some (u, id))
        × (u.epoch ≡ t.epoch)
        × ((added : List S) × (u.styles ≡ t.styles ++ added)))
      ⊎ ((find E s t.index ≡ none) × (65535 < length t.styles) × (r ≡ none))

  -- On a table whose index tells the first place of each style, `intern` gives a number at which the
  -- table has the style, and that a second `intern` gives again without a change. The styles before
  -- stay where they are, so that no number changes its style, and the index stays right. It panics
  -- only for a new style in a table with more than 65535 styles.
  pub intern-Interns :
      (t : StyleTable S) (s : S) → IsIndexed E t.styles t.index → Interns t s (intern E t s)
  unfolding intern get
  intern-Interns t s ix = elim (intern_in-Interned E 65535 t.styles t.index s ix) [
    | inr (fresh, full, e) ↦ inr (fresh, full, rw e refl)
    | inl (us, ui, id, e, (ix', there, at, added)) ↦ inl (
      record t { styles = us; index = ui },
      id,
      rw e refl,
      ix',
      at,
      rw (intern_in_again E 65535 us ui s id there) refl,
      refl,
      added,
    )
  ]

-- What `intern` makes of the table of grapheme clusters.
abbrev pub InternsCluster : GraphemeTable → List ℕ → Option (GraphemeTable × ℕ) → Type 0
InternsCluster t c r =
    ((c ≡ []) × (r ≡ some (t, u32_max)))
    ⊎ ((u : GraphemeTable) × (id : ℕ) × (r ≡ some (u, id))
        × IsIndexed clusters u.entries u.index
        × (get_cluster u id ≡ some c)
        × (intern_cluster u c ≡ some (u, id))
        × ((added : List (List ℕ)) × (u.entries ≡ t.entries ++ added)))
    ⊎ ((find clusters c t.index ≡ none) × (u32_max < length t.entries) × (r ≡ none))

-- On a table whose index tells the first place of each cluster, interning the empty cluster changes
-- nothing and gives the largest 32-bit number. Any other cluster gets a number at which the table
-- has it, and which a second `intern` gives again without a change; the clusters before stay where
-- they are, and the index stays right. A panic is possible only for a new cluster in a table with
-- more than 4294967295 of them.
pub intern_cluster-InternsCluster :
    (t : GraphemeTable) (c : List ℕ)
    → IsIndexed clusters t.entries t.index
    → InternsCluster t c (intern_cluster t c)
unfolding intern_cluster get_cluster
intern_cluster-InternsCluster t [] ix = inl (refl, refl)
intern_cluster-InternsCluster t (x ∷ xs) ix =
    elim (intern_in-Interned clusters u32_max t.entries t.index (x ∷ xs) ix) [
      | inr (fresh, full, e) ↦ inr (inr (fresh, full, rw e refl))
      | inl (us, ui, id, e, (ix', there, at, added)) ↦ inr (
          inl (
            record { entries = us; index = ui },
            id,
            rw e refl,
            ix',
            at,
            rw (intern_in_again clusters u32_max us ui (x ∷ xs) id there) refl,
            added,
          ))
    ]
