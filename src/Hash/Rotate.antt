-- ===== src/Hash/Rotate.antt =====
-- `rotate` is linear for `^`, adds up, and stays in 64 bits.
use Prim.Native.Nat.{bit_xor}
use native.Mathlib.Nat.{
  pow-suc, add-mul-mod_self_right, mod-eq_of_lt, mul-add-div_right, div-eq_of_lt,
}
use native.Mathlib.Nat.{div-add-mod', div-lt_iff_lt-mul, one-le-pow, mod-lt}
use native.Mathlib.Decide.{ℕ_discrete}
use harmonic.Prelude.{
  ℕ, zero, suc, ◌+◌, ◌-◌, ◌*◌, ◌/◌, ◌%◌, ◌^◌, ◌<◌, ◌≡◌, refl, sym, ◌∙◌, ap, ap₂, arith,
}
use harmonic.Bits.{xor-lt, xor_fields, bit_or_fields}
use harmonic.Hash.{rotate}

pow-add : (k m : ℕ) → 2 ^ (k + m) ≡ 2 ^ k * 2 ^ m
pow-add k zero = let e : k + 0 ≡ k = omega arith in rw e (omega arith)
pow-add k (suc m) =
    let e : k + suc m ≡ suc (k + m) = omega arith in
    rw (e, pow-suc 2 (k + m), pow-suc 2 m, pow-add k m) (omega arith)

split64 : (m : ℕ) → m < 64 → 2 ^ m * 2 ^ (64 - m) ≡ 2 ^ 64
split64 m h = let e : m + (64 - m) ≡ 64 = omega arith in rw (← pow-add m (64 - m), e)

-- A word is its upper `m` bits above its lower `64 - m` bits, and rotation swaps the two fields.
fields_rotate : (A B h l : ℕ) → h < A → l < B → ((h * B + l) * A) % (A * B) ≡ l * A
fields_rotate A B h l p q =
    let e : (h * B + l) * A ≡ l * A + h * (A * B) = omega arith in
    let lt : l * A < A * B = grind arith in
    rw (e, add-mul-mod_self_right (l * A) h (A * B)) (mod-eq_of_lt lt)

fields_div : (B h l : ℕ) → l < B → (h * B + l) / B ≡ h
fields_div B h l q =
    let lt : 0 < B = omega arith in rw (mul-add-div_right lt h l, div-eq_of_lt q) (omega arith)

pub rotate_fields :
    (m n h l : ℕ)
    → 0 < m
    → m < 64
    → n % 64 ≡ m
    → h < 2 ^ m
    → l < 2 ^ (64 - m)
    → rotate (h * 2 ^ (64 - m) + l) n ≡ l * 2 ^ m + h
unfolding rotate
rotate_fields m n h l pos lt e hh hl =
    rw (e, rotate)
      (ground (
        arith,
        rw (split64 m lt) at (fields_rotate (2 ^ m) (2 ^ (64 - m)) h l hh hl),
        fields_div (2 ^ (64 - m)) h l hl,
        bit_or_fields m l h hh,
      ))

-- A rotation by a multiple of 64 does nothing.
rotate_none : (x n : ℕ) → n % 64 ≡ 0 → rotate x n ≡ x
unfolding rotate
rotate_none x n e = rw (e, rotate)

-- The fields that `rotate_fields` speaks of.
record IsSplit (m x : ℕ) : Type 0 where
  high : ℕ
  low : ℕ
  sum : x ≡ high * 2 ^ (64 - m) + low
  high_fits : high < 2 ^ m
  low_fits : low < 2 ^ (64 - m)

two-pow-pos : (k : ℕ) → 0 < 2 ^ k
two-pow-pos k = one-le-pow k 2 (omega arith)

word_split : (m x : ℕ) → m < 64 → x < 2 ^ 64 → IsSplit m x
word_split m x lt fits = record {
  high = x / 2 ^ (64 - m);
  low = x % 2 ^ (64 - m);
  sum = sym (div-add-mod' x (2 ^ (64 - m)));
  high_fits = (div-lt_iff_lt-mul (two-pow-pos (64 - m))).1 (rw (split64 m lt) fits);
  low_fits = mod-lt x (two-pow-pos (64 - m));
}

module _ (m n x : ℕ) (pos : 0 < m) (lt : m < 64) (e : n % 64 ≡ m) (s : IsSplit m x) where
  rotate_split : rotate x n ≡ s.low * 2 ^ m + s.high
  rotate_split =
      ap (λ t. rotate t n) s.sum ∙ rotate_fields m n s.high s.low pos lt e s.high_fits s.low_fits

  rotate_split-lt : rotate x n < 2 ^ 64
  rotate_split-lt = rw (rotate_split, ← split64 m lt) (fields_lt s.high_fits s.low_fits)
    where
      fields_lt : {A B h l : ℕ} → h < A → l < B → l * A + h < A * B
      fields_lt p q = grind arith

pub rotate-lt : (x n : ℕ) → x < 2 ^ 64 → rotate x n < 2 ^ 64
rotate-lt x n fits = elim (ℕ_discrete (n % 64) 0) [
  | yes e ↦ rw (rotate_none x n e) fits
  | no turns ↦
      let lt : n % 64 < 64 = omega arith in
      rotate_split-lt (n % 64) n x (omega arith) lt refl (word_split (n % 64) x lt fits)
]

module _ (m n a b : ℕ) (pos : 0 < m) (lt : m < 64) (e : n % 64 ≡ m) (s : IsSplit m a)
    (t : IsSplit m b) where
  xor_split : IsSplit m (bit_xor a b)
  xor_split = record {
    high = bit_xor s.high t.high;
    low = bit_xor s.low t.low;
    sum =
        ap₂ bit_xor s.sum t.sum
        ∙ xor_fields (64 - m) s.high t.high s.low t.low s.low_fits t.low_fits;
    high_fits = xor-lt m s.high t.high s.high_fits t.high_fits;
    low_fits = xor-lt (64 - m) s.low t.low s.low_fits t.low_fits;
  }

  rotate-xor_split : rotate (bit_xor a b) n ≡ bit_xor (rotate a n) (rotate b n)
  unfolding xor_split
  rotate-xor_split =
      rotate_split m n (bit_xor a b) pos lt e xor_split
      ∙ sym (xor_fields m s.low t.low s.high t.high s.high_fits t.high_fits)
      ∙ sym (ap₂ bit_xor (rotate_split m n a pos lt e s) (rotate_split m n b pos lt e t))

pub rotate-xor :
    (a b n : ℕ)
    → a < 2 ^ 64
    → b < 2 ^ 64
    → rotate (bit_xor a b) n ≡ bit_xor (rotate a n) (rotate b n)
rotate-xor a b n ha hb = elim (ℕ_discrete (n % 64) 0) [
  | yes e ↦ rw (rotate_none (bit_xor a b) n e, rotate_none a n e, rotate_none b n e)
  | no turns ↦
      let m = n % 64 in
      let lt : m < 64 = omega arith in
      rotate-xor_split m n a b (omega arith) lt refl (word_split m a lt ha) (word_split m b lt hb)
]

-- Only the number modulo 64 counts.
rotate_mod : (x n k : ℕ) → n % 64 ≡ k % 64 → rotate x n ≡ rotate x k
unfolding rotate
rotate_mod x n k e = rw (e, rotate)

rotate_last : (x n : ℕ) → n % 64 ≡ 63 → x < 2 ^ 64 → rotate (rotate x n) 1 ≡ x
rotate_last x n e fits =
    let s = word_split 63 x (omega arith) fits in
    ap (λ t. rotate t 1) (rotate_split 63 n x (omega arith) (omega arith) e s)
    ∙ rotate_fields 1 1 s.low s.high (omega arith) (omega arith) refl s.low_fits s.high_fits
    ∙ sym s.sum

module _ (m x : ℕ) (lt : m < 63) (s : IsSplit (suc m) x) where
  double_low : 2 ^ (64 - m) ≡ 2 * 2 ^ (64 - suc m)
  double_low =
      let e : 64 - m ≡ suc (64 - suc m) = omega arith in
      rw (e, pow-suc 2 (64 - suc m)) (omega arith)

  -- The top bit of the lower field of a split one bit higher up.
  carry : ℕ
  carry = s.high % 2

  lower : IsSplit m x
  unfolding carry
  lower = record {
    high = s.high / 2;
    low = carry * 2 ^ (64 - suc m) + s.low;
    sum = s.sum ∙ rw double_low (halves (2 ^ (64 - suc m)));
    high_fits = omega (arith, s.high_fits, pow-suc 2 m);
    low_fits = rw double_low (carry_fits (2 ^ (64 - suc m)) s.low_fits);
  }
    where
      halves : (B : ℕ) → s.high * B + s.low ≡ s.high / 2 * (2 * B) + (s.high % 2 * B + s.low)
      halves B =
          let e : s.high ≡ s.high / 2 * 2 + s.high % 2 = omega arith in
          omega (arith, ap (λ (t : ℕ). t * B) e)

      carry_fits : (B : ℕ) → s.low < B → s.high % 2 * B + s.low < 2 * B
      carry_fits B h = grind arith

  half_word : 2 ^ (64 - suc m) * 2 ^ m ≡ 2 ^ 63
  half_word =
      let e : 64 - suc m + m ≡ 63 = omega arith in sym (pow-add (64 - suc m) m) ∙ ap (λ t. 2 ^ t) e

  low_word : s.low * 2 ^ m + s.high / 2 < 2 ^ 63
  low_word = rw (← half_word) (fields_lt s.low_fits (omega (arith, s.high_fits, pow-suc 2 m)))
    where
      fields_lt : {A B h l : ℕ} → l < B → h < A → l * A + h < B * A
      fields_lt p q = grind arith

  rotate_twice : (n : ℕ) → 0 < m → n % 64 ≡ m → rotate (rotate x n) 1 ≡ rotate x (n + 1)
  unfolding lower carry
  rotate_twice n pos e =
      ap (λ t. rotate t 1)
        (rotate_split m n x pos (omega arith) e lower ∙ regroup (2 ^ (64 - suc m)) half_word)
      ∙ rotate_fields 1 1 (s.high % 2) (s.low * 2 ^ m + s.high / 2) (omega arith) (omega arith) refl
          (omega arith) low_word
      ∙ omega (arith, pow-suc 2 m, ap (λ (t : ℕ). s.low * t) (pow-suc 2 m))
      ∙ sym (rotate_split (suc m) (n + 1) x (omega arith) (omega arith) (omega arith) s)
    where
      regroup :
          (B : ℕ)
          → B * 2 ^ m ≡ 2 ^ 63
          → (s.high % 2 * B + s.low) * 2 ^ m + s.high / 2
            ≡ s.high % 2 * 2 ^ 63 + (s.low * 2 ^ m + s.high / 2)
      regroup B h = omega (arith, ap (λ (t : ℕ). s.high % 2 * t) h)

pub rotate-rotate_one : (x n : ℕ) → x < 2 ^ 64 → rotate (rotate x n) 1 ≡ rotate x (n + 1)
rotate-rotate_one x n fits = elim (ℕ_discrete (n % 64) 0) [
  | yes e ↦ rw (rotate_none x n e) (rotate_mod x 1 (n + 1) (omega arith))
  | no turns ↦ elim (ℕ_discrete (n % 64) 63) [
    | yes e ↦ rotate_last x n e fits ∙ sym (rotate_none x (n + 1) (omega arith))
    | no inner ↦
        let lt : suc (n % 64) < 64 = omega arith in
        rotate_twice (n % 64) x (omega arith) (word_split (suc (n % 64)) x lt fits) n (omega arith)
          refl
  ]
]
