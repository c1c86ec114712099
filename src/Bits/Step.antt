-- ===== src/Bits/Step.antt =====
-- One binary digit of `^` and `|` at a time: the equations for the lowest digit.
use Prim.Native.Nat.{max, digits, bitwise, differ, bit_or, bit_xor, bit_xor-bitwise, bit_or-bitwise}
use native.Mathlib.Nat.{le_refl}
use harmonic.Prelude.{ℕ, zero, suc, ◌+◌, ◌*◌, ◌/◌, ◌%◌, ◌≤◌, ◌<◌, ◌≡◌, refl, arith}

module _ (base : ℕ → ℕ) (combine : ℕ → ℕ → ℕ) where
  -- The fuel does not matter as long as it is at least the number.
  spare : (x y m k : ℕ) → x ≤ m → x ≤ k → digits base combine m x y ≡ digits base combine k x y
  spare zero y zero zero hm hk = refl
  spare zero y zero (suc k) hm hk = refl
  spare zero y (suc m) zero hm hk = refl
  spare zero y (suc m) (suc k) hm hk = refl
  spare (suc x) y zero k hm hk = absurd (omega arith)
  spare (suc x) y (suc m) zero hm hk = absurd (omega arith)
  spare (suc x) y (suc m) (suc k) hm hk =
      rw (spare (suc x / 2) (y / 2) m k (omega arith) (omega arith))

  lowest_digit :
      (x y : ℕ)
      → bitwise base combine (suc x) y
        ≡ combine (suc x % 2) (y % 2) + 2 * bitwise base combine (suc x / 2) (y / 2)
  lowest_digit x y =
      let half = suc x / 2 in omega (arith, spare half (y / 2) x half (omega arith) (le_refl half))

pub bit_or_step : (x y : ℕ) → bit_or x y ≡ max (x % 2) (y % 2) + 2 * bit_or (x / 2) (y / 2)
bit_or_step zero y = simp bit_or-bitwise (omega arith)
bit_or_step (suc x) y = simp bit_or-bitwise (lowest_digit (λ d. d) max x y)

differ_digits : (a b : ℕ) → a < 2 → b < 2 → differ a b ≡ (a + b) % 2
differ_digits zero b p q = omega arith
differ_digits (suc zero) zero p q = refl
differ_digits (suc zero) (suc zero) p q = refl
differ_digits (suc zero) (suc (suc b)) p q = absurd (omega arith)
differ_digits (suc (suc a)) b p q = absurd (omega arith)

-- The exclusive or of two digits is their sum modulo 2.
pub bit_xor_step : (x y : ℕ) → bit_xor x y ≡ (x % 2 + y % 2) % 2 + 2 * bit_xor (x / 2) (y / 2)
bit_xor_step zero y = simp bit_xor-bitwise (omega arith)
bit_xor_step (suc x) y =
    simp bit_xor-bitwise
      (omega (arith, lowest_digit (λ d. d) differ x y, differ_digits (suc x % 2) (y % 2)))
