-- ===== src/SideTables/Tests.antt =====
-- Runs of the tables with numbers for styles, and the theorems about them at concrete tables.
use mr_crabs.Common.{ℕ, ◌≡◌, refl, ◌==◌, ==_iff, some, [], ◌∷◌, arith, true}
use mr_crabs.SideTables.Index.{Equality, IsIndexed}
use mr_crabs.SideTables.Styles.{StyleTable, ok, intern, from_exact}
use mr_crabs.SideTables.Clusters.{GraphemeTable, clusters, intern_cluster}
use mr_crabs.SideTables.Stable.{
  Interns, InternsCluster, intern-Interns, intern_cluster-InternsCluster,
}
use mr_crabs.SideTables.Restore.{Restores, from_exact-Restores}
use mr_crabs.SideTables.Remap.{StyleRemap, remap_new, assign_ids, validate_for, check_entries}
use mr_crabs.SideTables.Live.{Sends, remap_new-Sends}

same→eq_nat : (a b : ℕ) → (a == b) ≡ true → a ≡ b
same→eq_nat a b h = (==_iff a b).0 h

same_refl_nat : (a : ℕ) → (a == a) ≡ true
same_refl_nat a = ground arith

abbrev numbers : Equality ℕ
numbers = record { same = ◌==◌; same→eq = same→eq_nat; same_refl = same_refl_nat }

-- The default style 0, and the styles 7 and 9.
abbrev three : StyleTable ℕ
three = record { styles = 0 ∷ 7 ∷ 9 ∷ []; index = (9, 2) ∷ (7, 1) ∷ (0, 0) ∷ []; epoch = 4 }

three-IsIndexed : IsIndexed numbers three.styles three.index
three-IsIndexed k = ground arith

intern_runs :
    intern numbers three 8
    ≡ some (record three { styles = 0 ∷ 7 ∷ 9 ∷ 8 ∷ []; index = (8, 3) ∷ three.index }, 3)
unfolding intern
intern_runs = refl

intern-Interns_example : Interns numbers three 8 (intern numbers three 8)
intern-Interns_example = intern-Interns numbers three 8 three-IsIndexed

abbrev accents : GraphemeTable
accents = record { entries = (101 ∷ 769 ∷ []) ∷ []; index = ((101 ∷ 769 ∷ []), 0) ∷ [] }

accents-IsIndexed : IsIndexed clusters accents.entries accents.index
accents-IsIndexed k = refl

intern_cluster-InternsCluster_example :
    InternsCluster accents (97 ∷ 768 ∷ []) (intern_cluster accents (97 ∷ 768 ∷ []))
intern_cluster-InternsCluster_example =
    intern_cluster-InternsCluster accents (97 ∷ 768 ∷ []) accents-IsIndexed

-- The first and the last of the three styles are live.
abbrev compacted : StyleRemap ℕ
compacted = record { old_to_new = 0 ∷ 65535 ∷ 1 ∷ []; new_styles = 0 ∷ 9 ∷ []; old_len = 3 }

remap_new_runs : remap_new numbers 0 three.styles (0 ∷ 2 ∷ []) ≡ ok compacted
unfolding remap_new assign_ids
remap_new_runs = refl

validate_for_runs : validate_for numbers 0 compacted three.styles ≡ true
unfolding validate_for check_entries
validate_for_runs = refl

remap_new-Sends_example : Sends three.styles (0 ∷ 2 ∷ []) compacted 2
remap_new-Sends_example =
    remap_new-Sends numbers 0 three.styles (0 ∷ 2 ∷ []) compacted 2 (refl, (refl, tt))
      remap_new_runs (omega arith)

from_exact-Restores_example :
    Restores numbers 0 (0 ∷ 7 ∷ 7 ∷ []) (from_exact numbers 0 (0 ∷ 7 ∷ 7 ∷ []))
from_exact-Restores_example = from_exact-Restores numbers 0 (0 ∷ 7 ∷ 7 ∷ [])
