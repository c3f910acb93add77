-- ===== src/SideTables/Clusters.antt =====
-- The tables of grapheme clusters, hyperlinks and semantic regions, and selection anchors:
-- crates/mr-crabs-terminal/src/side_tables.rs.
use Prim.Native.String.{String}
use mr_crabs.Common.{
  ℕ, Bool, true, false, ◌&&◌, ◌≡◌, refl, Option, some, List, [], ◌∷◌, ◌++◌, ◌>>=◌, ◌==◌, length,
  get_elem?, arith,
}
use mr_crabs.SideTables.Index.{Equality, intern_in}

abbrev pub u32_max : ℕ
u32_max = 4294967295

abbrev pub same_cluster : List ℕ → List ℕ → Bool
same_cluster [] [] = true
same_cluster (x ∷ xs) (y ∷ ys) = (x == y) && same_cluster xs ys
same_cluster _ _ = false

pub same_cluster→eq : (xs ys : List ℕ) → same_cluster xs ys ≡ true → xs ≡ ys
same_cluster→eq [] [] h = refl
same_cluster→eq [] (y ∷ ys) h = cc
same_cluster→eq (x ∷ xs) [] h = cc
same_cluster→eq (x ∷ xs) (y ∷ ys) h = ground (arith, same_cluster→eq xs ys)

pub same_cluster_refl : (xs : List ℕ) → same_cluster xs xs ≡ true
same_cluster_refl [] = refl
same_cluster_refl (x ∷ xs) = ground (arith, same_cluster_refl xs)

abbrev pub clusters : Equality (List ℕ)
clusters = record { same = same_cluster; same→eq = same_cluster→eq; same_refl = same_cluster_refl }

pub record GraphemeTable : Type 0 where
  pub entries : List (List ℕ)
  pub index : List (List ℕ × ℕ)

abbrev pub no_graphemes : GraphemeTable
no_graphemes = record { entries = []; index = [] }

-- The empty cluster has no entry.
unfoldable pub intern_cluster : GraphemeTable → List ℕ → Option (GraphemeTable × ℕ)
intern_cluster t [] = some (t, u32_max)
intern_cluster t (x ∷ xs) = do
  (entries, index, id) ← intern_in clusters u32_max t.entries t.index (x ∷ xs)
  some (record { entries = entries; index = index }, id)

unfoldable pub get_cluster : GraphemeTable → ℕ → Option (List ℕ)
get_cluster t id = get_elem? t.entries id

pub record HyperlinkIdentity : Type 0 where
  pub id : String
  pub uri : String

pub record HyperlinkTable : Type 0 where
  pub entries : List HyperlinkIdentity
  pub index : List (HyperlinkIdentity × ℕ)

abbrev pub no_hyperlinks : HyperlinkTable
no_hyperlinks = record { entries = []; index = [] }

unfoldable pub intern_hyperlink :
    Equality HyperlinkIdentity → HyperlinkTable → String → String → Option (HyperlinkTable × ℕ)
intern_hyperlink E t id uri = do
  (entries, index, n) ← intern_in E u32_max t.entries t.index (record { id = id; uri = uri })
  some (record { entries = entries; index = index }, n)

unfoldable pub get_hyperlink : HyperlinkTable → ℕ → Option HyperlinkIdentity
get_hyperlink t id = get_elem? t.entries id

pub data SemanticKind : Type 0 where
  prompt output : SemanticKind

-- `LogicalOffset` is a number.
pub record SemanticRegion : Type 0 where
  pub start : ℕ
  pub end : ℕ
  pub kind : SemanticKind

unfoldable pub push_region : List SemanticRegion → SemanticRegion → List SemanticRegion × ℕ
push_region regions r = (regions ++ (r ∷ []), length regions)

unfoldable pub remap_regions : (ℕ → ℕ) → List SemanticRegion → List SemanticRegion
remap_regions f [] = []
remap_regions f (r ∷ rs) = record r { start = f r.start; end = f r.end } ∷ remap_regions f rs

pub record SelectionAnchor : Type 0 where
  pub offset : ℕ
  pub col : ℕ

unfoldable pub remap_anchor : (ℕ → ℕ) → SelectionAnchor → SelectionAnchor
remap_anchor f a = record a { offset = f a.offset }
