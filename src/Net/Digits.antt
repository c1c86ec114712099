-- ===== src/Net/Digits.antt =====
-- Numbers as digits, and back: std::net's parser on what `Display` writes.
use harmonic.Prelude.{
  ℕ, zero, suc, ◌+◌, ◌-◌, ◌*◌, ◌/◌, ◌%◌, ◌≤◌, ◌<◌, Bool, true, false, not, ◌&&◌, ltb, ◌==◌,
  if◌then◌else◌,
}
use harmonic.Prelude.{
  Option, none, some, [], ◌∷◌, ◌++◌, append_assoc, append-nil, ◌≡◌, refl, sym, ap, ◌∙◌, arith,
}
use harmonic.Prelude.{Bool-cases, Option-cases, inl, inr, ltb→lt, ltb-false_le}
use harmonic.Text.{Bytes}
use harmonic.Net.{is_digit, digits, show, read_digits, has_leading_zero, read_number}

-- How many digits a number has.
unfoldable pub width : ℕ → ℕ → ℕ
width zero n = 0
width (suc fuel) n = let rest = width fuel (n / 10) in if ltb n 10 then 1 else suc rest

-- What ends a number.
abbrev pub starts_other : Bytes → Bool
starts_other [] = true
starts_other (b ∷ text) = not (is_digit b)

-- A limit on the digits that leaves room.
abbrev pub Allows : Option ℕ → ℕ → Type 0
Allows none count = Unit
Allows (some most) count = count ≤ most

read_digits-step :
    (limit value count d : ℕ) (max : Option ℕ) (text : Bytes)
    → d < 10
    → value * 10 + d ≤ limit
    → Allows max (suc count)
    → read_digits limit max value count ((b'0' + d) ∷ text)
      ≡ read_digits limit max (value * 10 + d) (suc count) text
unfolding read_digits
read_digits-step limit value count d none text small fits room =
    let e : b'0' + d - b'0' ≡ d = omega arith in rw e (ground arith)
read_digits-step limit value count d (some most) text small fits room =
    let e : b'0' + d - b'0' ≡ d = omega arith in rw e (ground arith)

Allows-less : (max : Option ℕ) (count : ℕ) → Allows max (suc count) → Allows max count
Allows-less none count room = tt
Allows-less (some most) count room = omega arith

pub read_digits-digits :
    (fuel n limit : ℕ) (max : Option ℕ) (tail : Bytes)
    → n < fuel
    → n ≤ limit
    → Allows max (width fuel n)
    → read_digits limit max 0 0 (digits fuel n ++ tail)
      ≡ read_digits limit max n (width fuel n) tail
unfolding digits width
read_digits-digits zero n limit max tail enough fits room = absurd (omega arith)
read_digits-digits (suc fuel) n limit max tail enough fits room = elim (Bool-cases (ltb n 10)) [
  | inl one ↦
      let room' = rw one at room in
      let start : 0 * 10 + n ≡ n = omega arith in
      rw one (
        read_digits-step limit 0 0 n max tail (ltb→lt n 10 one) (omega arith) room'
        ∙ ap (λ v. read_digits limit max v 1 tail) start)
  | inr more ↦
      let room' = rw more at room in
      let ten = ltb-false_le n 10 more in
      let whole : n / 10 * 10 + n % 10 ≡ n = omega arith in
      rw more (
        ap (λ text. read_digits limit max 0 0 text)
          (append_assoc (digits fuel (n / 10)) ((b'0' + n % 10) ∷ []) tail)
        ∙ read_digits-digits fuel (n / 10) limit max ((b'0' + n % 10) ∷ tail) (omega arith)
            (omega arith) (Allows-less max (width fuel (n / 10)) room')
        ∙ read_digits-step limit (n / 10) (width fuel (n / 10)) (n % 10) max tail (omega arith)
            (omega arith) room'
        ∙ ap (λ v. read_digits limit max v (suc (width fuel (n / 10))) tail) whole)
]

pub read_digits-end :
    (limit value count : ℕ) (max : Option ℕ) (text : Bytes)
    → starts_other text ≡ true
    → read_digits limit max value count text
      ≡ some (record { value = value; count = count; rest = text })
unfolding read_digits
read_digits-end limit value count max [] h = refl
read_digits-end limit value count max (b ∷ text) h = elim (Bool-cases (is_digit b)) [
  | inl digit ↦ cc (h, ap not digit)
  | inr other ↦ rw other refl
]

pub width_pos : (fuel n : ℕ) → n < fuel → 1 ≤ width fuel n
unfolding width
width_pos zero n h = absurd (omega arith)
width_pos (suc fuel) n h = ground arith

-- A number that is not zero starts with another digit.
leading :
    (fuel n : ℕ) (tail : Bytes)
    → n < fuel
    → 1 ≤ n
    → has_leading_zero (digits fuel n ++ tail) ≡ false
unfolding digits
leading zero n tail h p = absurd (omega arith)
leading (suc fuel) n tail h p = elim (Bool-cases (ltb n 10)) [
  | inl one ↦ rw one (ground arith)
  | inr more ↦
      let ten = ltb-false_le n 10 more in
      rw more (
        rw (append_assoc (digits fuel (n / 10)) ((b'0' + n % 10) ∷ []) tail)
          (leading fuel (n / 10) ((b'0' + n % 10) ∷ tail) (omega arith) (omega arith)))
]

width_one : (fuel n : ℕ) → n < fuel → n < 10 → width fuel n ≡ 1
unfolding width
width_one zero n h k = absurd (omega arith)
width_one (suc fuel) n h k = ground arith

no_leading_zero :
    (n : ℕ) (tail : Bytes) → (has_leading_zero (show n ++ tail) && ltb 1 (width (suc n) n)) ≡ false
unfolding show width
no_leading_zero zero tail = refl
no_leading_zero (suc n) tail =
    rw (leading (suc (suc n)) (suc n) tail (omega arith) (omega arith)) refl

-- What `Display` writes for a number within the limits, and something else behind it, is read back.
pub read_number-show :
    (n limit : ℕ) (max : Option ℕ) (zeros : Bool) (tail : Bytes)
    → n ≤ limit
    → Allows max (width (suc n) n)
    → starts_other tail ≡ true
    → read_number limit max zeros (show n ++ tail) ≡ some (n, tail)
unfolding read_number show
read_number-show n limit max zeros tail fits room ends =
    let read =
      read_digits-digits (suc n) n limit max tail (omega arith) fits room
      ∙ read_digits-end limit n (width (suc n) n) max tail ends in
    let counted : (width (suc n) n == 0) ≡ false =
      ground (arith, width_pos (suc n) n (omega arith)) in
    rw (read, counted, read_number) (prefixed zeros)
  where
    prefixed :
        (z : Bool)
        → ◌≡◌ {A = Option (ℕ × Bytes)}
            (if not z && (has_leading_zero (show n ++ tail) && ltb 1 (width (suc n) n))
              then none
              else some (n, tail))
            (some (n, tail))
    prefixed true = refl
    prefixed false = rw (no_leading_zero n tail) refl

width_one_le : (fuel n : ℕ) → n < 10 → width fuel n ≤ 1
unfolding width
width_one_le zero n h = omega arith
width_one_le (suc fuel) n h = ground arith

width_two_le : (fuel n : ℕ) → n < 100 → width fuel n ≤ 2
unfolding width
width_two_le zero n h = omega arith
width_two_le (suc fuel) n h = ground (arith, width_one_le fuel (n / 10))

width_three_le : (fuel n : ℕ) → n < 1000 → width fuel n ≤ 3
unfolding width
width_three_le zero n h = omega arith
width_three_le (suc fuel) n h = ground (arith, width_two_le fuel (n / 10))

pub width_octet : (n : ℕ) → n ≤ 255 → width (suc n) n ≤ 3
width_octet n h = width_three_le (suc n) n (omega arith)

pub read_digits-le :
    (limit : ℕ) (max : Option ℕ) (value count : ℕ) (text : Bytes)
    (result : record { value : ℕ; count : ℕ; rest : Bytes })
    → value ≤ limit
    → read_digits limit max value count text ≡ some result
    → result.value ≤ limit
unfolding read_digits
read_digits-le limit max value count [] result h e = ground arith
read_digits-le limit none value count (b ∷ text) result h e =
    ground (arith, read_digits-le limit none (value * 10 + (b - b'0')) (suc count) text result)
read_digits-le limit (some most) value count (b ∷ text) result h e =
    ground
      (arith, read_digits-le limit (some most) (value * 10 + (b - b'0')) (suc count) text result)

-- No number above the limit is read.
pub read_number-le :
    (limit : ℕ) (max : Option ℕ) (zeros : Bool) (text : Bytes) (n : ℕ) (rest : Bytes)
    → read_number limit max zeros text ≡ some (n, rest)
    → n ≤ limit
unfolding read_number
read_number-le limit max zeros text n rest e =
    elim (Option-cases (read_digits limit max 0 0 text)) [
      | inl failed ↦ let e' = rw (failed, read_number) at e in cc
      | inr (number, found) ↦
          let e' = rw (found, read_number) at e in
          ground (arith, read_digits-le limit max 0 0 text number)
    ]

-- What `Display` writes starts with a digit.
digits-first :
    (fuel n : ℕ)
    → n < fuel
    → (d : ℕ) × (rest : Bytes) × (digits fuel n ≡ (b'0' + d) ∷ rest) × (d < 10)
unfolding digits
digits-first zero n h = absurd (omega arith)
digits-first (suc fuel) n h = elim (Bool-cases (ltb n 10)) [
  | inl one ↦ (n, [], rw one refl, ltb→lt n 10 one)
  | inr more ↦
      let ten = ltb-false_le n 10 more in
      let (d, rest, e, small) = digits-first fuel (n / 10) (omega arith) in
      (
        d,
        rest ++ (b'0' + n % 10) ∷ [],
        rw more (ap (λ text. text ++ (b'0' + n % 10) ∷ []) e),
        small,
      )
]

pub show-first : (n : ℕ) → (d : ℕ) × (rest : Bytes) × (show n ≡ (b'0' + d) ∷ rest) × (d < 10)
unfolding show
show-first n = digits-first (suc n) n (omega arith)

-- The digits of a number within the limit, and no others.
pub read_digits-show :
    (n limit : ℕ)
    → n ≤ limit
    → read_digits limit none 0 0 (show n)
      ≡ some (record { value = n; count = width (suc n) n; rest = [] })
unfolding show
read_digits-show n limit fits =
    ap (λ text. read_digits limit none 0 0 text) (sym (append-nil (digits (suc n) n)))
    ∙ read_digits-digits (suc n) n limit none [] (omega arith) fits tt
    ∙ read_digits-end limit n (width (suc n) n) none [] refl
