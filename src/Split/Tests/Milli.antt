-- ===== src/Split/Tests/Milli.antt =====
-- A small model of `f32` for the tests: thousandths, with no NaN.
use mr_crabs.Common.{
  ℕ, ◌+◌, ◌*◌, ◌/◌, ◌≤◌, ◌<◌, ◌≡◌, refl, Bool, true, false, Option, none, some, leb, ltb,
  if◌then◌else◌, min, suc, arith,
}
use mr_crabs.Common.Int.{ℤ, pos, negsuc, sub_ℕ}
use mr_crabs.Split.Float.{Float32, IsIeee}

abbrev pub pos_part : ℤ → ℕ
pos_part (pos n) = n
pos_part (negsuc n) = 0

abbrev pub neg_part : ℤ → ℕ
neg_part (pos n) = 0
neg_part (negsuc n) = suc n

abbrev pub le_ℤ : ℤ → ℤ → Bool
le_ℤ a b = leb (pos_part a + neg_part b) (pos_part b + neg_part a)

abbrev pub lt_ℤ : ℤ → ℤ → Bool
lt_ℤ a b = ltb (pos_part a + neg_part b) (pos_part b + neg_part a)

abbrev pub nearest : ℤ → ℤ → ℤ → ℤ
nearest lo hi x = if lt_ℤ x lo then lo else if lt_ℤ hi x then hi else x

abbrev pub clamp_ℤ : ℤ → ℤ → ℤ → Option ℤ
clamp_ℤ lo hi x = if le_ℤ lo hi then some (nearest lo hi x) else none

abbrev pub milli : Float32
milli = record {
  Carrier = ℤ;
  ratio_min = pos 100;
  ratio_max = pos 900;
  half = pos 500;
  epsilon = pos 0;
  of_u16 = λ a. pos (1000 * a);
  to_u16 = λ x. min (pos_part x / 1000) 65535;
  add = λ a b. sub_ℕ (pos_part a + pos_part b) (neg_part a + neg_part b);
  sub = λ a b. sub_ℕ (pos_part a + neg_part b) (neg_part a + pos_part b);
  mul = λ a b.
      sub_ℕ ((pos_part a * pos_part b + neg_part a * neg_part b) / 1000)
        ((pos_part a * neg_part b + neg_part a * pos_part b) / 1000);
  neg = λ a. sub_ℕ (neg_part a) (pos_part a);
  abs = λ a. pos (pos_part a + neg_part a);
  round = λ a. pos ((pos_part a + 500) / 1000 * 1000);
  le = le_ℤ;
  gt = λ a b. lt_ℤ b a;
  is_nan = λ _. false;
  clamp = clamp_ℤ;
}

clamp_ℤ_total : (lo hi x : ℤ) → le_ℤ lo hi ≡ true → (y : ℤ) × (clamp_ℤ lo hi x ≡ some y)
clamp_ℤ_total lo hi x h = (nearest lo hi x, rw h)

clamp_ℤ_bounds :
    (lo hi x y : ℤ) → clamp_ℤ lo hi x ≡ some y → (le_ℤ lo y ≡ true) × (le_ℤ y hi ≡ true)
clamp_ℤ_bounds lo hi x y h = ground arith

cast_bounds :
    (a b : ℕ) (x : ℤ)
    → a < 65536
    → b < 65536
    → le_ℤ (pos (1000 * a)) x ≡ true
    → le_ℤ x (pos (1000 * b)) ≡ true
    → (a ≤ min (pos_part x / 1000) 65535) × (min (pos_part x / 1000) 65535 ≤ b)
cast_bounds a b (pos n) ha hb h k = ground arith
cast_bounds a b (negsuc n) ha hb h k = ground arith

le_of_cast : (a b : ℕ) → le_ℤ (pos (1000 * a)) (pos (1000 * b)) ≡ leb a b
le_of_cast a b = ground arith

pub milli-IsIeee : IsIeee milli
milli-IsIeee = record {
  ratio_order = refl;
  half_ratio = record { above = refl; below = refl };
  clamp_total = clamp_ℤ_total;
  clamp_bounds = λ lo hi x y e _. clamp_ℤ_bounds lo hi x y e;
  clamp_nan = λ lo hi x y e _. refl;
  clamp_panics = λ lo hi x h. ground arith;
  gt_nan = λ x y e h. refl;
  le_of_u16 = λ a b _ _. le_of_cast a b;
  to_u16_bounds = cast_bounds;
  mul_ratio = λ a r h. refl;
}
