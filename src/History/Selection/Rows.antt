-- ===== src/History/Selection/Rows.antt =====
-- What a logical line and a selection's extent are: crates/mr-crabs-history/src/selection.rs.
use mr_crabs.Common.{
  ℕ, zero, suc, ◌+◌, ◌≤◌, ◌<◌, ◌≡◌, ap, subst, sym, ◌∙◌, ◌⊎◌, inl, inr, Bool, false, not, Option,
  some, arith, Bool-cases, ◌>>=◌,
}
use mr_crabs.History.Selection.{
  Selection, SelectionPoint, normalized, is_wrapped, go_back, wrapped_end, expand_line,
}
use mr_crabs.History.Selection.Words.{Free, StartsAt, Free-append, go_back_lem}

-- The order of the points, by line and then by column.
abbrev Before : SelectionPoint → SelectionPoint → Type 0
Before p q = (p.line < q.line) ⊎ ((p.line ≡ q.line) × (p.col ≤ q.col))

-- The normalized extent has its start not after its end, and they are the anchor and the active
-- point in one order or the other.
normalized-Before :
    (s : Selection)
    → Before (normalized s).0 (normalized s).1
      × ((normalized s ≡ (s.anchor, s.active)) ⊎ (normalized s ≡ (s.active, s.anchor)))
unfolding normalized
normalized-Before s = ground arith

module _ (row : ℕ → Option (ℕ × Bool)) where
  -- The test of the row, as the walk over the rows reads it.
  abbrev pub ends : ℕ → Bool
  ends l = not (is_wrapped row l)

  wrapped_end_lem :
      (n l fuel : ℕ)
      → is_wrapped row (l + n) ≡ false
      → n < fuel
      → (k : ℕ) × (wrapped_end fuel row l ≡ some (l + k))
        × Free ends l k
        × (is_wrapped row (l + k) ≡ false)
  unfolding wrapped_end
  wrapped_end_lem n l zero stop enough = absurd (omega (arith, enough))
  wrapped_end_lem zero l (suc fuel) stop enough = (0, rw here (ap some (omega arith)), tt, stop)
    where
      here : is_wrapped row l ≡ false
      here = subst (λ i. is_wrapped row i ≡ false) l_zero stop
        where
          l_zero : l + 0 ≡ l
          l_zero = omega arith
  wrapped_end_lem (suc n) l (suc fuel) stop enough = elim (Bool-cases (is_wrapped row l)) [
    | inr here ↦
        (0, rw here (ap some (omega arith)), tt, subst (λ i. is_wrapped row i ≡ false) l_zero here)
    | inl more ↦
        let (k, e, f, s) =
          wrapped_end_lem n (l + 1) fuel (subst (λ i. is_wrapped row i ≡ false) (l_suc n) stop)
            (omega (arith, enough)) in
        (
          suc k,
          rw more (e ∙ ap some (sym (l_suc k))),
          (ground (arith, more), f),
          subst (λ i. is_wrapped row i ≡ false) (sym (l_suc k)) s,
        )
  ]
    where
      l_zero : l ≡ l + 0
      l_zero = omega arith

      l_suc : (k : ℕ) → l + suc k ≡ l + 1 + k
      l_suc k = omega arith

  -- If some row from the given one on is not wrapped into the next, and the fuel exceeds its distance,
  -- `expand_line` gives the first and the last row of the logical line around the row: all rows
  -- before the last one are wrapped, the last one is not, and none before the first is wrapped into it.
  pub expand_line-Rows :
      (l n fuel : ℕ)
      → is_wrapped row (l + n) ≡ false
      → n < fuel
      → (start end : ℕ) × (expand_line fuel row l ≡ some (start, end))
        × StartsAt ends start
        × (is_wrapped row end ≡ false)
        × (start ≤ l)
        × (l ≤ end)
        × ((k : ℕ) × (end ≡ start + k) × Free ends start k)
  unfolding expand_line
  expand_line-Rows l n fuel stop enough =
      let (k, e, f, s) = wrapped_end_lem n l fuel stop enough in
      let (starts, (m, at, g)) = go_back_lem ends l in
      (
        go_back ends l,
        l + k,
        ap (λ o. o >>= (λ end. some (go_back ends l, end))) e,
        starts,
        s,
        omega (arith, at),
        omega arith,
        (
          m + k,
          omega (arith, at),
          Free-append ends (go_back ends l) m k g (subst (λ i. Free ends i k) (sym at) f),
        ),
      )
