-- ===== src/Split/Tree/Panes.antt =====
-- The leaves of a split tree, in depth-first order: `panes`, `len` and `contains` of
-- crates/mr-crabs-app/src/model/split.rs.
use mr_crabs.Common.{
  ℕ, ◌≡◌, refl, sym, List, [], ◌∷◌, ◌++◌, append_assoc, arith, contains, contains-append, length,
  length-append,
}
use mr_crabs.Split.Tree.{SplitTree, leaf, split, len, holds, collect_panes, panes}

module _ {F : Type 0} where
  -- The plain description: first subtree, then second.
  abbrev pub leaves : SplitTree F → List ℕ
  leaves (leaf pane) = pane ∷ []
  leaves (split _ _ first second) = leaves first ++ leaves second

  collect_panes-eq-append : (t : SplitTree F) (out : List ℕ) → collect_panes t out ≡ out ++ leaves t
  unfolding collect_panes
  collect_panes-eq-append (leaf pane) out = refl
  collect_panes-eq-append (split _ _ first second) out =
      rw
        (
          collect_panes-eq-append second (collect_panes first out),
          collect_panes-eq-append first out,
        )
        (append_assoc out (leaves first) (leaves second))

  pub panes-eq-leaves : (t : SplitTree F) → panes t ≡ leaves t
  unfolding panes
  panes-eq-leaves t = collect_panes-eq-append t []

  pub holds-eq-contains : (t : SplitTree F) (p : ℕ) → holds t p ≡ contains (leaves t) p
  unfolding holds
  holds-eq-contains (leaf pane) p = ground arith
  holds-eq-contains (split _ _ first second) p =
      rw (holds-eq-contains first p, holds-eq-contains second p)
        (sym (contains-append p (leaves first) (leaves second)))

  pub holds-eq-contains-panes : (t : SplitTree F) (p : ℕ) → holds t p ≡ contains (panes t) p
  holds-eq-contains-panes t p = rw panes-eq-leaves (holds-eq-contains t p)

  pub len-eq-length : (t : SplitTree F) → len t ≡ length (leaves t)
  unfolding len
  len-eq-length (leaf pane) = refl
  len-eq-length (split _ _ first second) = omega (
    arith,
    len-eq-length first,
    len-eq-length second,
    length-append (leaves first) (leaves second),
  )
