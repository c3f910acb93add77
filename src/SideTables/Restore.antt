-- ===== src/SideTables/Restore.antt =====
-- A style table made anew from its styles: `StyleTable::from_exact` of
-- crates/mr-crabs-terminal/src/side_tables.rs.
use mr_crabs.Common.{
  ℕ, suc, ◌+◌, ◌≤◌, ◌<◌, ◌≡◌, refl, sym, ap, subst, ◌∙◌, ◌⊎◌, inl, inr, true, false, some, Option,
  Bool-cases, List, [], ◌∷◌, ◌++◌, length, length-append, append-nil, append_assoc, arith, leb, ltb,
  ◌==◌, ltb→lt,
}
use mr_crabs.SideTables.Index.{Equality, IsIndexed, or_insert}
use mr_crabs.SideTables.Styles.{
  StyleTable, Result, ok, err, restore_style_table, starts_default, index_from, from_exact,
}
use mr_crabs.SideTables.Interning.{or_insert-IsIndexed}

module _ {S : Type 0} (E : Equality S) (default : S) where
  index_from-IsIndexed :
      (before styles : List S) (m : List (S × ℕ))
      → IsIndexed E before m
      → length before + length styles ≤ 65536
      → (m' : List (S × ℕ)) × (index_from E default (length before) styles m ≡ some m')
        × IsIndexed E (before ++ styles) m'
  index_from-IsIndexed before [] m ix h =
      (m, unfold index_from in refl, subst (λ ss. IsIndexed E ss m) (sym (append-nil before)) ix)
  index_from-IsIndexed before (s ∷ ss) m ix h =
      let (m', e, ix') =
        index_from-IsIndexed (before ++ (s ∷ [])) ss (or_insert E s (length before) m)
          (or_insert-IsIndexed E before m s ix) (omega (arith, length-append before (s ∷ []), h)) in
      (
        m',
        round
            ∙ ap (λ n. index_from E default n ss (or_insert E s (length before) m))
                (omega (arith, length-append before (s ∷ [])))
            ∙ e,
        subst (λ ss. IsIndexed E ss m') (append_assoc before (s ∷ []) ss) ix',
      )
    where
      round :
          index_from E default (length before) (s ∷ ss) m
          ≡ index_from E default (suc (length before)) ss (or_insert E s (length before) m)
      round = unfold index_from in rw room refl
        where
          room : leb (length before) 65535 ≡ true
          room = ground (arith, h)

  -- What `from_exact` makes of the styles.
  abbrev pub Restores : List S → Option (Result (StyleTable S)) → Type 0
  Restores styles r =
      (((length styles ≡ 0) ⊎ (65536 < length styles) ⊎ (starts_default E default styles ≡ false))
        × (r ≡ some (err restore_style_table)))
      ⊎ ((0 < length styles)
          × (length styles ≤ 65536)
          × (starts_default E default styles ≡ true)
          × ((t : StyleTable S) × (r ≡ some (ok t))
              × (t.styles ≡ styles)
              × (t.epoch ≡ 0)
              × IsIndexed E styles t.index))

  -- `from_exact` never panics. It refuses no styles, more than 65536 styles and styles that do not
  -- begin with the default one; any others become a table of exactly these styles, repetitions
  -- included, whose index tells the first place of each.
  pub from_exact-Restores : (styles : List S) → Restores styles (from_exact E default styles)
  unfolding from_exact
  from_exact-Restores styles = elim (Bool-cases (length styles == 0)) [
    | inl e ↦ inl (inl (ground (arith, e)), rw e refl)
    | inr n ↦ elim (Bool-cases (ltb 65536 (length styles))) [
      | inl e ↦ inl (inr (inl (ltb→lt 65536 (length styles) e)), rw (n, e) refl)
      | inr few ↦ elim (Bool-cases (starts_default E default styles)) [
        | inr other ↦ inl (inr (inr other), rw (n, few, other) refl)
        | inl starts ↦
            let (m, e, ix) = index_from-IsIndexed [] styles [] (λ k. refl) (ground (arith, few)) in
            inr (
              ground (arith, n),
              ground (arith, few),
              starts,
              (
                record { styles = styles; index = m; epoch = 0 },
                rw (n, few, starts, e) refl,
                refl,
                refl,
                ix,
              ),
            )
      ]
    ]
  ]
