-- ===== src/Window/Invariant.antt =====
-- The invariant of a window (crates/mr-crabs-app/src/model/window.rs) and the lemmas on its tabs and
-- their order.
use mr_crabs.Common.{
  ℕ, ◌≡◌, subst, inl, inr, true, none, some, List, [], ◌∷◌, ◌==◌, Bool-cases, contains, Distinct,
  keys, lookup, insert, remove_key, update, IsOrdered, arith,
}
use mr_crabs.Tab
use mr_crabs.Tab.{TabModel}
use mr_crabs.Tab.Invariant
use mr_crabs.Window.{WindowModel}

module _ {F S : Type 0} where
  -- The key of a tab is its identity, and the tab is valid.
  abbrev pub IsEntry : ℕ → TabModel F S → Type 0
  IsEntry k t = (t.id ≡ k) × Tab.Invariant.IsValid t

  abbrev pub AreEntries : List (ℕ × TabModel F S) → Type 0
  AreEntries [] = Unit
  AreEntries ((k, t) ∷ m) = IsEntry k t × AreEntries m

  pub insert-AreEntries :
      (k : ℕ) (t : TabModel F S) (m : List (ℕ × TabModel F S))
      → IsEntry k t
      → AreEntries m
      → AreEntries (insert k t m)
  insert-AreEntries k t [] e all = (e, tt)
  insert-AreEntries k t ((j, u) ∷ m) e all = ground (arith, insert-AreEntries k t m e all.1)

  pub remove_key-AreEntries :
      (k : ℕ) (m : List (ℕ × TabModel F S)) → AreEntries m → AreEntries (remove_key k m)
  remove_key-AreEntries k [] all = tt
  remove_key-AreEntries k ((j, u) ∷ m) all = ground (arith, remove_key-AreEntries k m all.1)

  pub lookup-IsEntry :
      (k : ℕ) (m : List (ℕ × TabModel F S)) (t : TabModel F S)
      → AreEntries m
      → lookup k m ≡ some t
      → IsEntry k t
  lookup-IsEntry k [] t all e = cc
  lookup-IsEntry k ((j, u) ∷ m) t all e = elim (Bool-cases (j == k)) [
    | inl same ↦
        let key : j ≡ k = ground arith in
        let tab : u ≡ t = ground arith in subst (IsEntry k) tab (subst (λ i. IsEntry i u) key all.0)
    | inr other ↦ lookup-IsEntry k m t all.1 (ground arith)
  ]

  pub update-AreEntries :
      (k : ℕ) (t : TabModel F S) (m : List (ℕ × TabModel F S))
      → IsEntry k t
      → AreEntries m
      → AreEntries (update k (λ _. t) m)
  update-AreEntries k t [] e all = tt
  update-AreEntries k t ((j, u) ∷ m) e all = elim (Bool-cases (j == k)) [
    | inl same ↦ let key : k ≡ j = ground arith in rw same (subst (λ i. IsEntry i t) key e, all.1)
    | inr other ↦ rw other (all.0, update-AreEntries k t m e all.1)
  ]

  pub contains-keys_of_lookup :
      (k : ℕ) (m : List (ℕ × TabModel F S)) (t : TabModel F S)
      → lookup k m ≡ some t
      → contains (keys m) k ≡ true
  contains-keys_of_lookup k [] t e = cc
  contains-keys_of_lookup k ((j, u) ∷ m) t e = ground (arith, contains-keys_of_lookup k m t)

module _ {F S G : Type 0} where
  -- The order lists each tab once, each tab is valid under its own identity, the active tab is one
  -- of them, and there is one unless the window is empty.
  pub record IsValid (w : WindowModel F S G) : Type 0 where
    pub ordered : IsOrdered w.tabs
    pub entries : AreEntries w.tabs
    pub distinct : Distinct w.tab_order
    pub same : (a : ℕ) → contains w.tab_order a ≡ contains (keys w.tabs) a
    pub active : (a : ℕ) → w.active_tab ≡ some a → contains (keys w.tabs) a ≡ true
    pub awake : w.active_tab ≡ none → w.tab_order ≡ []
