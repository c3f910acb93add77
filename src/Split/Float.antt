-- ===== src/Split/Float.antt =====
-- What the split tree relies on of `f32`: the operations that it calls, and their documented
-- behaviour. Floats are not part of the repository.
use mr_crabs.Common.{ℕ, ◌≤◌, ◌<◌, ◌≡◌, Bool, true, false, Option, none, some, leb}

pub record Float32 : Type 1 where
  pub Carrier : Type 0
  pub ratio_min : Carrier
  pub ratio_max : Carrier
  pub half : Carrier
  pub epsilon : Carrier
  pub of_u16 : ℕ → Carrier
  pub to_u16 : Carrier → ℕ
  pub add : Carrier → Carrier → Carrier
  pub sub : Carrier → Carrier → Carrier
  pub mul : Carrier → Carrier → Carrier
  pub neg : Carrier → Carrier
  pub abs : Carrier → Carrier
  pub round : Carrier → Carrier
  pub le : Carrier → Carrier → Bool
  pub gt : Carrier → Carrier → Bool
  pub is_nan : Carrier → Bool
  -- `clamp lo hi x`; `none` is the panic of bounds in the wrong order.
  pub clamp : Carrier → Carrier → Carrier → Option Carrier

-- A ratio within `[RATIO_MIN, RATIO_MAX]`.
pub record IsRatio (f : Float32) (r : f.Carrier) : Type 0 where
  pub above : f.le f.ratio_min r ≡ true
  pub below : f.le r f.ratio_max ≡ true

-- The behaviour of `f32` that the theorems use.
pub record IsIeee (f : Float32) : Type 0 where
  pub ratio_order : f.le f.ratio_min f.ratio_max ≡ true
  pub half_ratio : IsRatio f f.half
  -- `clamp` returns unless its bounds are in the wrong order, lies between them, and makes no NaN.
  pub clamp_total :
      (lo hi x : f.Carrier) → f.le lo hi ≡ true → (y : f.Carrier) × (f.clamp lo hi x ≡ some y)
  pub clamp_bounds :
      (lo hi x y : f.Carrier)
      → f.clamp lo hi x ≡ some y
      → f.is_nan y ≡ false
      → (f.le lo y ≡ true) × (f.le y hi ≡ true)
  pub clamp_nan :
      (lo hi x y : f.Carrier) → f.clamp lo hi x ≡ some y → f.is_nan x ≡ false → f.is_nan y ≡ false
  pub clamp_panics : (lo hi x : f.Carrier) → f.le lo hi ≡ false → f.clamp lo hi x ≡ none
  -- A comparison with a distance to NaN fails.
  pub gt_nan : (x y e : f.Carrier) → f.gt (f.abs (f.sub x y)) e ≡ true → f.is_nan x ≡ false
  -- `u16` embeds exactly, and a value between two such casts back between them.
  pub le_of_u16 : (a b : ℕ) → a < 65536 → b < 65536 → f.le (f.of_u16 a) (f.of_u16 b) ≡ leb a b
  pub to_u16_bounds :
      (a b : ℕ) (x : f.Carrier)
      → a < 65536
      → b < 65536
      → f.le (f.of_u16 a) x ≡ true
      → f.le x (f.of_u16 b) ≡ true
      → (a ≤ f.to_u16 x) × (f.to_u16 x ≤ b)
  -- The product of a `u16` and a ratio is a number.
  pub mul_ratio :
      (a : ℕ) (r : f.Carrier) → IsRatio f r → f.is_nan (f.round (f.mul (f.of_u16 a) r)) ≡ false
