-- ===== src/SideTables/Interning.antt =====
-- What interning promises: crates/mr-crabs-terminal/src/side_tables.rs.
use mr_crabs.Common.{
  ℕ, suc, ◌+◌, ◌<◌, ◌≡◌, refl, sym, ap, subst, ◌∙◌, ◌⊎◌, inl, inr, Bool, Option, none, some, List,
  [], ◌∷◌, ◌++◌, if◌then◌else◌, leb, length, get_elem?, get_elem?-last, Bool-cases, Option-cases,
  arith, append-nil,
}
use mr_crabs.SideTables.Index.{
  Equality, find, or_insert, or_insert_at, intern_in, intern_at, position_from, IsIndexed,
}

module _ {K : Type 0} (E : Equality K) where
  -- The first place in a list with one more entry.
  abbrev or_last : Option ℕ → Bool → ℕ → Option ℕ
  or_last none here n = if here then some n else none
  or_last (some j) here n = some j

  position_from-append :
      (i : ℕ) (k y : K) (xs : List K)
      → position_from E i k (xs ++ (y ∷ []))
        ≡ or_last (position_from E i k xs) (E.same y k) (i + length xs)
  position_from-append i k y [] = ground arith
  position_from-append i k y (x ∷ xs) = ground (arith, position_from-append (suc i) k y xs)

  position_from-get :
      (i : ℕ) (k : K) (xs : List K) (j : ℕ)
      → position_from E i k xs ≡ some j
      → (d : ℕ) × (j ≡ i + d) × (get_elem? xs d ≡ some k)
  position_from-get i k [] j h = cc
  position_from-get i k (x ∷ xs) j h = elim (Bool-cases (E.same x k)) [
    | inl e ↦ (0, ground (arith, h, e), ap some (E.same→eq x k e))
    | inr n ↦
        let (d, later, at) = position_from-get (suc i) k xs j (ground (arith, h, n)) in
        (suc d, omega (arith, later), at)
  ]

  -- A new value at the end of the entries, and the index with its number.
  push-IsIndexed :
      (entries : List K) (index : List (K × ℕ)) (k : K)
      → IsIndexed E entries index
      → find E k index ≡ none
      → IsIndexed E (entries ++ (k ∷ [])) ((k, length entries) ∷ index)
  push-IsIndexed entries index k ix fresh j = elim (Bool-cases (E.same k j)) [
    | inl e ↦ ground (
      arith,
      e,
      ix j,
      position_from-append 0 j k entries,
      subst (λ x. find E x index ≡ none) (E.same→eq k j e) fresh,
    )
    | inr n ↦ elim (Option-cases (position_from E 0 j entries)) [
      | inl e ↦ ground (arith, n, e, ix j, position_from-append 0 j k entries)
      | inr (i, e) ↦ ground (arith, n, e, ix j, position_from-append 0 j k entries)
    ]
  ]

  -- A value that the entries have already, at their end.
  again-IsIndexed :
      (entries : List K) (index : List (K × ℕ)) (k : K) (id : ℕ)
      → IsIndexed E entries index
      → find E k index ≡ some id
      → IsIndexed E (entries ++ (k ∷ [])) index
  again-IsIndexed entries index k id ix there j =
      elim (Option-cases (position_from E 0 j entries)) [
        | inr (i, e) ↦ ground (arith, e, ix j, position_from-append 0 j k entries)
        | inl e ↦ elim (Bool-cases (E.same k j)) [
          | inl same ↦
              ground
                (arith, e, ix j, subst (λ x. find E x index ≡ some id) (E.same→eq k j same) there)
          | inr other ↦ ground (arith, e, other, ix j, position_from-append 0 j k entries)
        ]
      ]

  pub or_insert-IsIndexed :
      (entries : List K) (index : List (K × ℕ)) (k : K)
      → IsIndexed E entries index
      → IsIndexed E (entries ++ (k ∷ [])) (or_insert E k (length entries) index)
  or_insert-IsIndexed entries index k ix = elim (Option-cases (find E k index)) [
    | inl fresh ↦ subst stays (sym fresh) (push-IsIndexed entries index k ix fresh)
    | inr (id, there) ↦ subst stays (sym there) (again-IsIndexed entries index k id ix there)
  ]
    where
      stays : Option ℕ → Type 0
      stays o = IsIndexed E (entries ++ (k ∷ [])) (or_insert_at E k (length entries) index o)

  -- What `intern` makes of a table for numbers up to `top`: the entries `us` with the index `ui`.
  abbrev pub Interned : List K → K → List K → List (K × ℕ) → ℕ → Type 0
  Interned entries k us ui id =
      IsIndexed E us ui
      × (find E k ui ≡ some id)
      × (get_elem? us id ≡ some k)
      × ((added : List K) × (us ≡ entries ++ added))

  pub intern_in_again :
      (top : ℕ) (entries : List K) (index : List (K × ℕ)) (k : K) (id : ℕ)
      → find E k index ≡ some id
      → intern_in E top entries index k ≡ some (entries, index, id)
  intern_in_again top entries index k id there = ap (intern_at E top entries index k) there

  pub intern_in-Interned :
      (top : ℕ) (entries : List K) (index : List (K × ℕ)) (k : K)
      → IsIndexed E entries index
      → ((us : List K) × (ui : List (K × ℕ)) × (id : ℕ) × (intern_in E top entries index k
            ≡ some (us, ui, id))
          × Interned entries k us ui id)
        ⊎ ((find E k index ≡ none)
            × (top < length entries)
            × (intern_in E top entries index k ≡ none))
  intern_in-Interned top entries index k ix = elim (Option-cases (find E k index)) [
    | inr (id, there) ↦
        let (d, e, at) = position_from-get 0 k entries id (sym (ix k) ∙ there) in
        inl (
          entries,
          index,
          id,
          intern_in_again top entries index k id there,
          (
            ix,
            there,
            subst (λ j. get_elem? entries j ≡ some k) (omega (arith, e)) at,
            ([], sym (append-nil entries)),
          ),
        )
    | inl fresh ↦ elim (Bool-cases (leb (length entries) top)) [
      | inl room ↦ inl (
        entries ++ (k ∷ []),
        (k, length entries) ∷ index,
        length entries,
        ap (intern_at E top entries index k) fresh ∙ rw room refl,
        (
          push-IsIndexed entries index k ix fresh,
          rw (E.same_refl k) refl,
          get_elem?-last entries k,
          (k ∷ [], refl),
        ),
      )
      | inr full ↦
          inr
            (fresh, ground (arith, full), ap (intern_at E top entries index k) fresh ∙ rw full refl)
    ]
  ]
