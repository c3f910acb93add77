-- ===== src/Grid.antt =====
-- Grid sizes and cells: crates/mr-crabs-terminal/src/lib.rs.
use Prim.Native.Nat.{bit_and}
use mr_crabs.Common.{ℕ, Bool, not, ◌==◌}

pub record GridSize : Type 0 where
  pub cols : ℕ
  pub rows : ℕ

pub record Cell : Type 0 where
  pub content : ℕ
  pub style : ℕ
  pub flags : ℕ

abbrev pub wide : ℕ
wide = 0x0020

abbrev pub wide_spacer : ℕ
wide_spacer = 0x0040

-- `flags & mask != 0`.
abbrev pub has_flag : Cell → ℕ → Bool
has_flag c mask = not (bit_and c.flags mask == 0)

pub data DamageKind : Type 0 where
  clean partial full : DamageKind
