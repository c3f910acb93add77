-- ===== src/Split/Layout/Extent.antt =====
-- How a split divides its side: `first_width` and `first_height` of
-- crates/mr-crabs-app/src/model/split.rs.
use mr_crabs.Common.{ℕ, ◌-◌, ◌≤◌, ◌<◌, ◌≡◌, true, false, leb, none, some, arith}
use mr_crabs.Split.Float.{Float32, IsRatio, IsIeee}
use mr_crabs.Split.Layout.{first_extent}

module _ (f : Float32) (laws : IsIeee f) where
  -- A side of two cells or more leaves at least one for each half.
  pub first_extent_bounds :
      (n : ℕ) (r : f.Carrier)
      → 2 ≤ n
      → n < 65536
      → IsRatio f r
      → (e : ℕ) × (first_extent f n r ≡ some e) × (1 ≤ e) × (e ≤ n - 1)
  unfolding first_extent
  first_extent_bounds n r h w ratio =
      let (y, e) = laws.clamp_total _ _ x ordered in
      let between =
        laws.clamp_bounds _ _ x y e (laws.clamp_nan _ _ x y e (laws.mul_ratio n r ratio)) in
      let cast = laws.to_u16_bounds 1 (n - 1) y lower upper between.0 between.1 in
      (f.to_u16 y, rw e, cast.0, cast.1)
    where
      x : f.Carrier
      x = f.round (f.mul (f.of_u16 n) r)

      lower : 1 < 65536
      lower = omega arith

      upper : n - 1 < 65536
      upper = omega arith

      ordered : f.le (f.of_u16 1) (f.of_u16 (n - 1)) ≡ true
      ordered = ground (arith, laws.le_of_u16 1 (n - 1) (omega arith) (omega arith))

  -- A side of one cell or none makes `clamp(1.0, 0.0)`, which panics.
  pub first_extent_narrow : (n : ℕ) (r : f.Carrier) → n < 2 → first_extent f n r ≡ none
  unfolding first_extent
  first_extent_narrow n r h =
      rw (laws.clamp_panics (f.of_u16 1) (f.of_u16 (n - 1)) (f.round (f.mul (f.of_u16 n) r)) wrong)
    where
      ordered : f.le (f.of_u16 1) (f.of_u16 (n - 1)) ≡ leb 1 (n - 1)
      ordered = laws.le_of_u16 1 (n - 1) (omega arith) (omega arith)

      wrong : f.le (f.of_u16 1) (f.of_u16 (n - 1)) ≡ false
      wrong = ground (arith, ordered)
