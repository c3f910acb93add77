-- ===== src/Frame/Recycle.antt =====
-- What the frame pool promises: crates/mr-crabs-terminal/src/frame_pool.rs.
use mr_crabs.Common.{
  ℕ, ◌≤◌, ◌<◌, ◌≡◌, refl, sym, ap, subst, ◌∙◌, ltb→lt, ◌⊎◌, inl, inr, true, false, some, List, [],
  ◌∷◌, ◌++◌, ltb, length, length-append, Bool-cases, arith,
}
use mr_crabs.Grid.{GridSize}
use mr_crabs.Frame.{FrameDelta, empty, clear_for_reuse, clear_rows, take_last}
use mr_crabs.Frame.Pool.{FramePool, new, acquire, release, restamp, hand_out, capacity, len}

take_last-append {ℓ} :
    {A : Type ℓ} (xs : List A) (x : A) → take_last (xs ++ (x ∷ [])) ≡ some (x, xs)
take_last-append [] x = refl
take_last-append (y ∷ xs) x = rw (take_last-append xs x) refl

module _ {Style : Type 0} where
  -- The frames of the pool have nothing in the lists that `acquire` keeps.
  abbrev pub Cleared : List (FrameDelta Style) → Type 0
  Cleared [] = Unit
  Cleared (f ∷ fs) = ((f.rows ≡ []) × (f.styles ≡ [])) × Cleared fs

  Cleared-append :
      (fs : List (FrameDelta Style)) (f : FrameDelta Style)
      → Cleared fs
      → f.rows ≡ []
      → f.styles ≡ []
      → Cleared (fs ++ (f ∷ []))
  Cleared-append [] f c r s = ((r, s), tt)
  Cleared-append (g ∷ fs) f c r s = (c.0, Cleared-append fs f c.1 r s)

  -- The last element of a list whose frames are cleared, and the others.
  take_last-Cleared :
      (fs : List (FrameDelta Style))
      → Cleared fs
      → (fs ≡ [])
        ⊎ ((f : FrameDelta Style) × (rest : List (FrameDelta Style)) × (fs ≡ rest ++ (f ∷ []))
            × ((f.rows ≡ []) × (f.styles ≡ []))
            × Cleared rest)
  take_last-Cleared [] c = inl refl
  take_last-Cleared (g ∷ fs) c = elim (take_last-Cleared fs c.1) [
    | inl e ↦ inr (g, [], rw e refl, c.0, tt)
    | inr (f, rest, e, blank, cleared) ↦ inr (f, g ∷ rest, rw e refl, blank, (c.0, cleared))
  ]

  -- Equality of frames does not look at the spare rows.
  abbrev pub SameFrame : FrameDelta Style → FrameDelta Style → Type 0
  SameFrame f g = record f { spare_rows = [] } ≡ record g { spare_rows = [] }

  -- The pools that the operations reach from an empty one of the given bound.
  pub data Reach (bound : ℕ) : FramePool Style → Type 0 where
    reach_new : Reach bound (new bound)
    reach_acquire :
        (p : FramePool Style) (sequence : ℕ) (size : GridSize)
        → Reach bound p
        → Reach bound (acquire p sequence size).0
    reach_release :
        (p : FramePool Style) (f : FrameDelta Style) → Reach bound p → Reach bound (release p f)

  abbrev pub IsValid : ℕ → FramePool Style → Type 0
  IsValid bound p = (p.bound ≡ bound) × (length p.pool ≤ bound) × Cleared p.pool

  acquire_some :
      (p : FramePool Style) (sequence : ℕ) (size : GridSize) (f : FrameDelta Style)
      (rest : List (FrameDelta Style))
      → p.pool ≡ rest ++ (f ∷ [])
      → acquire p sequence size ≡ (record p { pool = rest }, restamp sequence size f)
  unfolding acquire
  acquire_some p sequence size f rest e =
      ap (hand_out p sequence size) (ap take_last e ∙ take_last-append rest f)

  restamp-SameFrame :
      (sequence : ℕ) (size : GridSize) (f : FrameDelta Style)
      → f.rows ≡ []
      → f.styles ≡ []
      → SameFrame (restamp sequence size f) (record (empty size) { sequence = sequence })
  unfolding empty
  restamp-SameFrame sequence size f r s = rw (r, s) refl

  -- What `acquire` makes of a valid pool.
  abbrev Renews : ℕ → ℕ → GridSize → FramePool Style × FrameDelta Style → Type 0
  Renews bound sequence size (p, f) =
      IsValid bound p × SameFrame f (record (empty size) { sequence = sequence })

  acquire-Renews :
      (bound : ℕ) (p : FramePool Style) (sequence : ℕ) (size : GridSize)
      → IsValid bound p
      → Renews bound sequence size (acquire p sequence size)
  acquire-Renews bound p sequence size (b, l, c) = elim (take_last-Cleared p.pool c) [
    | inl e ↦ subst (Renews bound sequence size) (sym (nothing e)) (
      (b, l, c),
      restamp-SameFrame sequence size (record (empty size) { sequence = sequence }) blank_rows
          blank_styles,
    )
    | inr (f, rest, e, (r, s), cleared) ↦
        subst (Renews bound sequence size) (sym (acquire_some p sequence size f rest e)) (
          (b, omega (arith, ap length e, length-append rest (f ∷ []), l), cleared),
          restamp-SameFrame sequence size f r s,
        )
  ]
    where
      nothing :
          p.pool ≡ []
          → acquire p sequence size
            ≡ (p, restamp sequence size (record (empty size) { sequence = sequence }))
      nothing e = unfold acquire in ap (hand_out p sequence size) (ap take_last e)

      blank_rows : (empty {Style = Style} size).rows ≡ []
      blank_rows = unfold empty in refl

      blank_styles : (empty {Style = Style} size).styles ≡ []
      blank_styles = unfold empty in refl

  release-IsValid :
      (bound : ℕ) (p : FramePool Style) (f : FrameDelta Style)
      → IsValid bound p
      → IsValid bound (release p f)
  unfolding release clear_for_reuse
  release-IsValid bound p f (b, l, c) = elim (Bool-cases (ltb (length p.pool) p.bound)) [
    | inl room ↦ rw room (
      b,
      omega (
        arith,
        length-append p.pool (clear_for_reuse f ∷ []),
        ltb→lt (length p.pool) p.bound room,
        b,
        l,
      ),
      Cleared-append p.pool (clear_for_reuse f) c refl refl,
    )
    | inr full ↦ rw full (b, l, c)
  ]

  Reach-IsValid : (bound : ℕ) (p : FramePool Style) → Reach bound p → IsValid bound p
  unfolding new
  Reach-IsValid bound p reach_new = (refl, omega arith, tt)
  Reach-IsValid bound p (reach_acquire q sequence size r) =
      (acquire-Renews bound q sequence size (Reach-IsValid bound q r)).0
  Reach-IsValid bound p (reach_release q f r) = release-IsValid bound q f (Reach-IsValid bound q r)

  -- A pool that is reached from an empty one by `acquire` and `release` keeps its bound and never
  -- holds more frames than that, and a frame that it hands out equals the empty frame of the given
  -- size and sequence number, whatever frames were released before.
  pub Reach-acquire :
      (bound : ℕ) (p : FramePool Style) (sequence : ℕ) (size : GridSize)
      → Reach bound p
      → (capacity p ≡ bound)
        × (len p ≤ bound)
        × SameFrame (acquire p sequence size).1 (record (empty size) { sequence = sequence })
  unfolding capacity len
  Reach-acquire bound p sequence size r =
      let (b, l, c) = Reach-IsValid bound p r in
      (b, l, (acquire-Renews bound p sequence size (Reach-IsValid bound p r)).1)

  release_room :
      (p : FramePool Style) (f : FrameDelta Style)
      → ltb (length p.pool) p.bound ≡ true
      → release p f ≡ record p { pool = p.pool ++ (clear_for_reuse f ∷ []) }
  unfolding release
  release_room p f room = rw room refl

  -- A pool with room gives the frame that was released last to the next `acquire`, with its rows
  -- cleared and put behind its spare rows, and is then as it was before the release. A full pool
  -- drops the frame.
  pub acquire-release :
      (p : FramePool Style) (f : FrameDelta Style) (sequence : ℕ) (size : GridSize)
      → ((len p < capacity p)
          × ((acquire (release p f) sequence size).0 ≡ p)
          × ((acquire (release p f) sequence size).1.spare_rows
              ≡ f.spare_rows ++ clear_rows f.rows))
        ⊎ ((capacity p ≤ len p) × (release p f ≡ p))
  unfolding capacity len
  acquire-release p f sequence size = elim (Bool-cases (ltb (length p.pool) p.bound)) [
    | inl room ↦
        let e =
          ap (λ q. acquire q sequence size) (release_room p f room)
          ∙ acquire_some (record p { pool = p.pool ++ (clear_for_reuse f ∷ []) }) sequence size
              (clear_for_reuse f) p.pool refl in
        inl
          (ltb→lt (length p.pool) p.bound room, ap (λ w. w.0) e, ap (λ w. w.1.spare_rows) e ∙ spare)
    | inr full ↦ inr (ground (arith, full), dropped full)
  ]
    where
      spare : (clear_for_reuse f).spare_rows ≡ f.spare_rows ++ clear_rows f.rows
      spare = unfold clear_for_reuse in refl

      dropped : ltb (length p.pool) p.bound ≡ false → release p f ≡ p
      dropped full = unfold release in rw full refl
