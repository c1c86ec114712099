-- ===== src/Prelude/Int.antt =====
-- Signed integers over the native numbers, under the library's names, as `i64` and `i32` fields
-- of a timestamp need them.
use Prim.Native.Nat.{ℕ, suc, ◌+◌, ◌-◌, ◌%◌, ◌^◌}
use mathlib.Core.Bool.{Bool}
use harmonic.Prelude.Tests.{ltb, if◌then◌else◌}

-- `negsuc n` is -(n + 1).
pub data ℤ : Type 0 where
  pos : ℕ → ℤ
  negsuc : ℕ → ℤ

abbrev pub pos_part : ℤ → ℕ
pos_part (pos n) = n
pos_part (negsuc n) = 0

abbrev pub neg_part : ℤ → ℕ
neg_part (pos n) = 0
neg_part (negsuc n) = suc n

abbrev pub ltb_ℤ : ℤ → ℤ → Bool
ltb_ℤ a b = ltb (pos_part a + neg_part b) (pos_part b + neg_part a)

-- A number of `w` bits, two's complement.
abbrev pub wrap : ℕ → ℕ → ℤ
wrap w n = if ltb (n % 2 ^ w) (2 ^ (w - 1)) then pos (n % 2 ^ w) else negsuc (2 ^ w - 1 - n % 2 ^ w)
