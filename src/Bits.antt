-- ===== src/Bits.antt =====
-- Laws of `^` and `|` on machine words, at every width.
mod Step
use Step.{bit_or_step, bit_xor_step}
use Prim.Native.Nat.{bit_or, bit_xor, bit_xor-bitwise}
use mathlib.Core.WellFounded
use native.Mathlib.Nat.{pow-suc}
use harmonic.Prelude.{ℕ, zero, suc, ◌+◌, ◌*◌, ◌/◌, ◌%◌, ◌^◌, ◌≤◌, ◌<◌, ◌≡◌, refl, ◌∙◌, ap, arith}

xor-half : (a b : ℕ) → bit_xor a b / 2 ≡ bit_xor (a / 2) (b / 2)
xor-half a b = omega (arith, bit_xor_step a b)

xor-parity : (a b : ℕ) → bit_xor a b % 2 ≡ (a % 2 + b % 2) % 2
xor-parity a b = omega (arith, bit_xor_step a b)

pub zero-xor : (b : ℕ) → bit_xor 0 b ≡ b
zero-xor b = bit_xor-bitwise 0 b

xor-zero_fuel : (n a : ℕ) → a ≤ n → bit_xor a 0 ≡ a
xor-zero_fuel zero zero h = refl
xor-zero_fuel zero (suc a) h = absurd (omega arith)
xor-zero_fuel (suc n) zero h = refl
xor-zero_fuel (suc n) (suc a) h =
    omega (arith, bit_xor_step (suc a) 0, xor-zero_fuel n (suc a / 2) (omega arith))

pub xor-zero : (a : ℕ) → bit_xor a 0 ≡ a
xor-zero a = xor-zero_fuel a a (omega arith)

xor_self_fuel : (n a : ℕ) → a ≤ n → bit_xor a a ≡ 0
xor_self_fuel zero zero h = refl
xor_self_fuel zero (suc a) h = absurd (omega arith)
xor_self_fuel (suc n) zero h = refl
xor_self_fuel (suc n) (suc a) h =
    omega (arith, bit_xor_step (suc a) (suc a), xor_self_fuel n (suc a / 2) (omega arith))

pub xor_self : (a : ℕ) → bit_xor a a ≡ 0
xor_self a = xor_self_fuel a a (omega arith)

xor_comm_fuel : (n a b : ℕ) → a ≤ n → b ≤ n → bit_xor a b ≡ bit_xor b a
xor_comm_fuel zero zero zero p q = refl
xor_comm_fuel zero zero (suc b) p q = absurd (omega arith)
xor_comm_fuel zero (suc a) b p q = absurd (omega arith)
xor_comm_fuel (suc n) a b p q = omega (
  arith,
  bit_xor_step a b,
  bit_xor_step b a,
  xor_comm_fuel n (a / 2) (b / 2) (omega arith) (omega arith),
)

pub xor_comm : (a b : ℕ) → bit_xor a b ≡ bit_xor b a
xor_comm a b = xor_comm_fuel (a + b) a b (omega arith) (omega arith)

xor_assoc_left :
    (a b c : ℕ)
    → bit_xor (bit_xor a b) c
      ≡ ((a % 2 + b % 2) % 2 + c % 2) % 2 + 2 * bit_xor (bit_xor (a / 2) (b / 2)) (c / 2)
xor_assoc_left a b c = bit_xor_step (bit_xor a b) c ∙ rw (xor-half a b, xor-parity a b)

xor_assoc_right :
    (a b c : ℕ)
    → bit_xor a (bit_xor b c)
      ≡ (a % 2 + (b % 2 + c % 2) % 2) % 2 + 2 * bit_xor (a / 2) (bit_xor (b / 2) (c / 2))
xor_assoc_right a b c = bit_xor_step a (bit_xor b c) ∙ rw (xor-half b c, xor-parity b c)

xor_assoc_fuel :
    (n a b c : ℕ) → a ≤ n → b ≤ n → c ≤ n → bit_xor (bit_xor a b) c ≡ bit_xor a (bit_xor b c)
xor_assoc_fuel zero zero b c p q r = rw (zero-xor b, zero-xor (bit_xor b c))
xor_assoc_fuel zero (suc a) b c p q r = absurd (omega arith)
xor_assoc_fuel (suc n) a b c p q r = omega (
  arith,
  xor_assoc_left a b c,
  xor_assoc_right a b c,
  xor_assoc_fuel n (a / 2) (b / 2) (c / 2) (omega arith) (omega arith) (omega arith),
)

pub xor_assoc : (a b c : ℕ) → bit_xor (bit_xor a b) c ≡ bit_xor a (bit_xor b c)
xor_assoc a b c = xor_assoc_fuel (a + b + c) a b c (omega arith) (omega arith) (omega arith)

doubled : (n width : ℕ) → n * 2 ^ suc width ≡ n * 2 ^ width + n * 2 ^ width
doubled n width = omega (arith, ap (λ power. n * power) (pow-suc 2 width))

-- Words of at most `k` bits are closed under `^`.
pub xor-lt : (k a b : ℕ) → a < 2 ^ k → b < 2 ^ k → bit_xor a b < 2 ^ k
xor-lt zero zero zero p q = omega arith
xor-lt zero zero (suc b) p q = absurd (omega arith)
xor-lt zero (suc a) b p q = absurd (omega arith)
xor-lt (suc k) a b p q = omega (
  arith,
  pow-suc 2 k,
  bit_xor_step a b,
  xor-lt k (a / 2) (b / 2) (omega (arith, pow-suc 2 k)) (omega (arith, pow-suc 2 k)),
)

-- `^` works on the fields above and below bit `k` separately.
pub xor_fields :
    (k p q r s : ℕ)
    → r < 2 ^ k
    → s < 2 ^ k
    → bit_xor (p * 2 ^ k + r) (q * 2 ^ k + s) ≡ bit_xor p q * 2 ^ k + bit_xor r s
xor_fields zero p q zero zero hr hs =
    let e : (p * 1 + 0 ≡ p) × (q * 1 + 0 ≡ q) = omega arith in rw (e.0, e.1) (omega arith)
xor_fields zero p q zero (suc s) hr hs = absurd (omega arith)
xor_fields zero p q (suc r) s hr hs = absurd (omega arith)
xor_fields (suc k) p q r s hr hs =
    bit_xor_step (p * 2 ^ suc k + r) (q * 2 ^ suc k + s)
    ∙ rw (upper p r, upper q s)
        (omega (
          arith,
          xor_fields k p q (r / 2) (s / 2) (omega (arith, pow-suc 2 k))
              (omega (arith, pow-suc 2 k)),
          bit_xor_step r s,
          doubled (bit_xor p q) k,
          doubled p k,
          doubled q k,
        ))
  where
    upper : (x t : ℕ) → (x * 2 ^ suc k + t) / 2 ≡ x * 2 ^ k + t / 2
    upper x t = omega (arith, doubled x k)

-- `(q << k) | r` is a sum when `r` fits `k` bits.
bit_or-zero_fuel : (n a : ℕ) → a ≤ n → bit_or a 0 ≡ a
bit_or-zero_fuel zero zero h = refl
bit_or-zero_fuel zero (suc a) h = absurd (omega arith)
bit_or-zero_fuel (suc n) zero h = refl
bit_or-zero_fuel (suc n) (suc a) h =
    omega (arith, bit_or_step (suc a) 0, bit_or-zero_fuel n (suc a / 2) (omega arith))

pub bit_or_fields :
    (k upper lower : ℕ) → lower < 2 ^ k → bit_or (upper * 2 ^ k) lower ≡ upper * 2 ^ k + lower
bit_or_fields zero upper zero fits =
    omega (arith, bit_or-zero_fuel (upper * 1) (upper * 1) (omega arith))
bit_or_fields zero upper (suc lower) fits = absurd (omega arith)
bit_or_fields (suc k) upper lower fits = ground (
  arith,
  bit_or_step (upper * 2 ^ suc k) lower,
  doubled upper k,
  pow-suc 2 k,
  bit_or_fields k upper (lower / 2) (omega (arith, pow-suc 2 k)),
)
