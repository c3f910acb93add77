-- ===== src/Split/Resize/Laws.antt =====
-- What moving a divider keeps: `resize` of crates/mr-crabs-app/src/model/split.rs.
use mr_crabs.Common.{
  ℕ, ◌≡◌, refl, ap, sym, ◌∙◌, contains, inl, inr, Bool, true, false, ◌&&◌, ◌||◌, some, Bool-cases,
  arith,
}
use mr_crabs.Split.Axis.{SplitAxis, SplitDirection, axis, axis_eq}
use mr_crabs.Split.Float.{Float32, IsIeee}
use mr_crabs.Split.Tree.{SplitTree, leaf, split, holds, panes}
use mr_crabs.Split.Tree.Panes.{leaves, panes-eq-leaves, holds-eq-contains}
use mr_crabs.Split.Layout.Tiling.{HasRatios}
use mr_crabs.Split.Resize.{move_divider, resize}

module _ (f : Float32) where
  -- What a resize of `t` keeps in its result.
  pub record Keeps (t t' : SplitTree f.Carrier) (moved : Bool) : Type 0 where
    pub order : leaves t' ≡ leaves t
    pub ratios : HasRatios f t → HasRatios f t'
    pub unmoved : moved ≡ false → t' ≡ t

  Keeps-first :
      (ax : SplitAxis) (r : f.Carrier) (first second t : SplitTree f.Carrier) (moved : Bool)
      → Keeps first t moved
      → Keeps (split ax r first second) (split ax r t second) moved
  Keeps-first ax r first second t moved k = record {
    order = rw k.order;
    ratios = λ h. (h.0, k.ratios h.1, h.2);
    unmoved = λ h. ap (λ s. split ax r s second) (k.unmoved h);
  }

  Keeps-second :
      (ax : SplitAxis) (r : f.Carrier) (first second t : SplitTree f.Carrier) (moved : Bool)
      → Keeps second t moved
      → Keeps (split ax r first second) (split ax r first t) moved
  Keeps-second ax r first second t moved k = record {
    order = rw k.order;
    ratios = λ h. (h.0, h.1, k.ratios h.2);
    unmoved = λ h. ap (split ax r first) (k.unmoved h);
  }

  -- Of the directions only the axis counts: the opposite direction moves the divider the same way.
  pub resize_opposite :
      (t : SplitTree f.Carrier) (pane : ℕ) (delta : f.Carrier)
      → (resize f t pane SplitDirection.left delta ≡ resize f t pane SplitDirection.right delta)
        × (resize f t pane SplitDirection.up delta ≡ resize f t pane SplitDirection.down delta)
  unfolding resize
  resize_opposite (leaf p) pane delta = (refl, refl)
  resize_opposite (split ax ratio first second) pane delta =
      let (l, u) = resize_opposite first pane delta in
      let (l', u') = resize_opposite second pane delta in (rw (l, l'), rw (u, u'))

module _ (f : Float32) (laws : IsIeee f) where
  move_divider-Keeps :
      (ax : SplitAxis) (ratio : f.Carrier) (first second : SplitTree f.Carrier) (adj : f.Carrier)
      → (t' : SplitTree f.Carrier) × (moved : Bool) × (move_divider f ax ratio first second adj
          ≡ some (t', moved))
        × Keeps f (split ax ratio first second) t' moved
  unfolding move_divider
  move_divider-Keeps ax ratio first second adj =
      let (next, e) = laws.clamp_total f.ratio_min f.ratio_max (f.add ratio adj) laws.ratio_order in
      elim (Bool-cases (f.gt (f.abs (f.sub next ratio)) f.epsilon)) [
        | inl far ↦ (
          split ax next first second,
          true,
          rw (e, far),
          record {
            order = refl;
            ratios =
                let inside =
                  laws.clamp_bounds _ _ _ next e (laws.gt_nan next ratio f.epsilon far) in
                λ r. (record { above = inside.0; below = inside.1 }, r.1, r.2);
            unmoved = λ h. cc;
          },
        )
        | inr near ↦ (
          split ax ratio first second,
          false,
          rw (e, near),
          record { order = refl; ratios = λ r. r; unmoved = λ h. refl },
        )
      ]

  -- `resize` never panics. It keeps the panes and their order, keeps every ratio within
  -- `[RATIO_MIN, RATIO_MAX]`, and leaves the tree as it is when it reports that nothing moved.
  pub resize-Keeps :
      (t : SplitTree f.Carrier) (pane : ℕ) (direction : SplitDirection) (delta : f.Carrier)
      → (t' : SplitTree f.Carrier) × (moved : Bool) × (resize f t pane direction delta
          ≡ some (t', moved))
        × Keeps f t t' moved
  unfolding resize
  resize-Keeps (leaf p) pane direction delta =
      (leaf p, false, refl, record { order = refl; ratios = λ r. r; unmoved = λ h. refl })
  resize-Keeps (split ax ratio first second) pane direction delta =
      let (t, moved, e, k) = resize-Keeps first pane direction delta in
      let (u, moved', e', k') = resize-Keeps second pane direction delta in
      elim (Bool-cases (axis_eq ax (axis direction) && (holds first pane || holds second pane))) [
        | inl own ↦ rw own (move_divider-Keeps ax ratio first second _)
        | inr other ↦ elim (Bool-cases (holds first pane)) [
          | inl h ↦ (
            split ax ratio t second,
            moved,
            ground (arith, e),
            Keeps-first f ax ratio first second t moved k,
          )
          | inr h ↦ elim (Bool-cases (holds second pane)) [
            | inl h' ↦ (
              split ax ratio first u,
              moved',
              ground (arith, e'),
              Keeps-second f ax ratio first second u moved' k',
            )
            | inr h' ↦ (
              split ax ratio first second,
              false,
              ground arith,
              record { order = refl; ratios = λ r. r; unmoved = λ h. refl },
            )
          ]
        ]
      ]

  move_divider_root :
      (ax : SplitAxis) (ratio : f.Carrier) (first second : SplitTree f.Carrier) (adj : f.Carrier)
      → (next : f.Carrier) × (moved : Bool) × (move_divider f ax ratio first second adj
          ≡ some (split ax next first second, moved))
  unfolding move_divider
  move_divider_root ax ratio first second adj =
      let (next, e) = laws.clamp_total f.ratio_min f.ratio_max (f.add ratio adj) laws.ratio_order in
      elim (Bool-cases (f.gt (f.abs (f.sub next ratio)) f.epsilon)) [
        | inl far ↦ (next, true, rw (e, far))
        | inr near ↦ (ratio, false, rw (e, near))
      ]

  -- Where the root already has the direction's axis, the divider that moves is the root's, however
  -- close to the pane a split of the same axis stands.
  pub resize_root :
      (ax : SplitAxis) (ratio : f.Carrier) (first second : SplitTree f.Carrier) (pane : ℕ)
      (direction : SplitDirection) (delta : f.Carrier)
      → axis_eq ax (axis direction) ≡ true
      → contains (panes (split ax ratio first second)) pane ≡ true
      → (next : f.Carrier) × (moved : Bool) × (resize f
            (split ax ratio first second)
            pane
            direction
            delta
          ≡ some (split ax next first second, moved))
  unfolding resize holds
  resize_root ax ratio first second pane direction delta own h =
      rw (own, held) (move_divider_root ax ratio first second _)
    where
      held : (holds first pane || holds second pane) ≡ true
      held =
          holds-eq-contains (split ax ratio first second) pane
          ∙ (ap (λ l. contains l pane) (sym (panes-eq-leaves (split ax ratio first second))) ∙ h)
