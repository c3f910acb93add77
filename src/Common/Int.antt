-- ===== src/Common/Int.antt =====
-- Signed integers over the native numbers, as far as the program computes with `isize`.
use Prim.Native.Nat.{ℕ, ◌-◌, ◌%◌}
use mr_crabs.Common.Tests.{leb, if◌then◌else◌}

-- `negsuc n` is -(n + 1).
pub data ℤ : Type 0 where
  pos : ℕ → ℤ
  negsuc : ℕ → ℤ

-- a - b, as an integer.
abbrev pub sub_ℕ : ℕ → ℕ → ℤ
sub_ℕ a b = if leb b a then pos (a - b) else negsuc (b - a - 1)

-- `a.rem_euclid(n)` for a positive `n`.
abbrev pub rem_euclid : ℤ → ℕ → ℕ
rem_euclid (pos a) n = a % n
rem_euclid (negsuc a) n = n - 1 - a % n
