-- ===== src/Persist/Bytes.antt =====
-- Bytes and errors of the history file: crates/mr-crabs-history/src/persist.rs. A cursor into the
-- bytes is kept as the bytes from it on; the sums that `checked_add` guards are those of lengths of
-- slices, which do not overflow.
use Prim.Native.Nat.{bit_xor}
use mr_crabs.Common.{
  ℕ, zero, suc, ◌+◌, ◌-◌, ◌*◌, ◌/◌, ◌%◌, ◌<◌, ◌≡◌, refl, Bool, true, false, List, [], ◌∷◌, ◌++◌,
  if◌then◌else◌, ltb, ◌==◌, length, length-append, take, drop, arith,
}

pub data PersistError : Type 0 where
  too_large too_many_lines bad_magic corrupt truncated : PersistError
  version_mismatch : ℕ → PersistError

-- The results of this file are small, so that one level does.
pub data Result (A : Type 0) : Type 0 where
  err : PersistError → Result A
  ok : A → Result A

-- `if b { return Err(e) }`.
abbrev pub fail_if : Bool → PersistError → Result Unit
fail_if b e = if b then err e else ok tt

infixl 5 ◌>>◌
abbrev pub ◌>>◌ : {A B : Type 0} → Result A → Result B → Result B
err e >> next = err e
ok _ >> next = next

-- `result?` before the rest of a function.
infixl 5 ◌>>=◌
abbrev pub ◌>>=◌ : {A B : Type 0} → Result A → (A → Result B) → Result B
err e >>= next = err e
ok a >>= next = next a

module _ {A B : Type 0} where
  pub bind-ok :
      (first : Result A) (next : A → Result B) {b : B}
      → (first >>= next) ≡ ok b
      → (a : A) × (first ≡ ok a) × (next a ≡ ok b)
  bind-ok (err e) next h = cc
  bind-ok (ok a) next h = (a, refl, h)

module _ {B : Type 0} where
  pub seq-ok :
      (first : Result Unit) (next : Result B) {b : B}
      → (first >> next) ≡ ok b
      → (first ≡ ok tt) × (next ≡ ok b)
  seq-ok (err e) next h = cc
  seq-ok (ok _) next h = (refl, h)

  pub guard-ok :
      (b : Bool) (e : PersistError) (next : Result B) {a : B}
      → (fail_if b e >> next) ≡ ok a
      → (b ≡ false) × (next ≡ ok a)
  guard-ok false e next h = (refl, h)
  guard-ok true e next h = cc

  pub ok-injective : {a b : B} → ok a ≡ ok b → a ≡ b
  ok-injective h = cc

pub fail_if-passes : (b : Bool) (e : PersistError) → fail_if b e ≡ ok tt → b ≡ false
fail_if-passes false e h = refl
fail_if-passes true e h = cc

-- `to_le_bytes` of a `u16` and a `u32`.
abbrev pub le_u16 : ℕ → List ℕ
le_u16 n = (n % 256) ∷ (n / 256 % 256) ∷ []

abbrev pub le_u32 : ℕ → List ℕ
le_u32 n = (n % 256) ∷ (n / 256 % 256) ∷ (n / 65536 % 256) ∷ (n / 16777216 % 256) ∷ []

unfoldable pub read_u32 : List ℕ → Result (ℕ × List ℕ)
read_u32 (a ∷ b ∷ c ∷ d ∷ rest) = ok (a + 256 * b + 65536 * c + 16777216 * d, rest)
read_u32 _ = err truncated

unfoldable pub read_u16 : List ℕ → Result (ℕ × List ℕ)
read_u16 (a ∷ b ∷ rest) = ok (a + 256 * b, rest)
read_u16 _ = err truncated

-- The next `n` bytes.
unfoldable pub read_slice : ℕ → List ℕ → Result (List ℕ × List ℕ)
read_slice n bytes = if ltb (length bytes) n then err truncated else ok (take n bytes, drop n bytes)

-- IEEE CRC-32, one bit at a time.
abbrev pub crc_shift : ℕ → ℕ → ℕ
crc_shift zero crc = crc
crc_shift (suc n) crc = crc_shift n (if crc % 2 == 1 then bit_xor (crc / 2) 0xedb88320 else crc / 2)

abbrev pub crc_over : List ℕ → ℕ → ℕ
crc_over [] crc = crc
crc_over (byte ∷ bytes) crc = crc_over bytes (crc_shift 8 (bit_xor crc byte))

unfoldable pub crc32 : List ℕ → ℕ
crc32 bytes = 0xffffffff - crc_over bytes 0xffffffff

pub le_u32_whole :
    (n : ℕ)
    → n < 4294967296
    → n % 256 + 256 * (n / 256 % 256) + 65536 * (n / 65536 % 256) + 16777216 * (n / 16777216 % 256)
      ≡ n
le_u32_whole n h = omega arith

pub le_u16_whole : (n : ℕ) → n < 65536 → n % 256 + 256 * (n / 256 % 256) ≡ n
le_u16_whole n h = omega arith

pub read_u32-le_u32 :
    (n : ℕ) (rest : List ℕ) → n < 4294967296 → read_u32 (le_u32 n ++ rest) ≡ ok (n, rest)
unfolding read_u32
read_u32-le_u32 n rest h = rw (le_u32_whole n h) refl

pub read_u16-le_u16 :
    (n : ℕ) (rest : List ℕ) → n < 65536 → read_u16 (le_u16 n ++ rest) ≡ ok (n, rest)
unfolding read_u16
read_u16-le_u16 n rest h = rw (le_u16_whole n h) refl

module _ {ℓ} {A : Type ℓ} where
  pub take-append : (xs ys : List A) → take (length xs) (xs ++ ys) ≡ xs
  take-append [] ys = refl
  take-append (x ∷ xs) ys = rw (take-append xs ys) refl

  pub drop-append : (xs ys : List A) → drop (length xs) (xs ++ ys) ≡ ys
  drop-append [] ys = refl
  drop-append (x ∷ xs) ys = drop-append xs ys

pub read_slice-append : (xs ys : List ℕ) → read_slice (length xs) (xs ++ ys) ≡ ok (xs, ys)
unfolding read_slice
read_slice-append xs ys =
    let fits : ltb (length (xs ++ ys)) (length xs) ≡ false = ground (arith, length-append xs ys) in
    rw (fits, take-append xs ys, drop-append xs ys) refl

pub crc32_bound : (bytes : List ℕ) → crc32 bytes < 4294967296
unfolding crc32
crc32_bound bytes = omega arith

-- The check value of the IEEE polynomial.
crc32_runs : crc32 (b'1' ∷ b'2' ∷ b'3' ∷ b'4' ∷ b'5' ∷ b'6' ∷ b'7' ∷ b'8' ∷ b'9' ∷ []) ≡ 0xcbf43926
unfolding crc32
crc32_runs = refl
