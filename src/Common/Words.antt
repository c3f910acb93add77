-- ===== src/Common/Words.antt =====
-- Machine words: arithmetic on `u16` and the like, with its wrap-around and its saturation.
use Prim.Native.Nat.{ℕ, ◌+◌, ◌-◌, ◌%◌, min}

abbrev pub u16_mod : ℕ
u16_mod = 65536

-- `a + b` and `a - b` on `u16`, as a release build computes them.
abbrev pub add_u16 : ℕ → ℕ → ℕ
add_u16 a b = (a + b) % u16_mod

abbrev pub sub_u16 : ℕ → ℕ → ℕ
sub_u16 a b = (a + u16_mod - b) % u16_mod

-- `a.saturating_add(b)` on `u16`; `saturating_sub` is `-`.
abbrev pub saturating_add_u16 : ℕ → ℕ → ℕ
saturating_add_u16 a b = min (a + b) 65535

abbrev pub u64_mod : ℕ
u64_mod = 18446744073709551616

-- `a + b`, `a - b` on `u64` and `usize`, as a release build computes them; also `wrapping_add`.
abbrev pub add_u64 : ℕ → ℕ → ℕ
add_u64 a b = (a + b) % u64_mod

abbrev pub sub_u64 : ℕ → ℕ → ℕ
sub_u64 a b = (a + u64_mod - b) % u64_mod
