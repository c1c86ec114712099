-- ===== src/Prelude/Lists.antt =====
-- Lists measured and indexed by native numbers, under the library's names.
use Prim.Native.Nat.{ℕ, zero, suc, ◌+◌, ◌-◌, ◌≤◌, min}
use mathlib.Core.Path.{◌≡◌, refl, sym, ◌∙◌, ap}
use mathlib.Core.List.{List, [], ◌∷◌, ◌++◌}
use mathlib.Core.Option.{Option, none, some}
use native.Mathlib.Omega.{arith}

module _ {ℓ} {A : Type ℓ} where
  abbrev pub length : List A → ℕ
  length [] = 0
  length (x ∷ xs) = suc (length xs)

  abbrev pub get_elem? : List A → ℕ → Option A
  get_elem? [] i = none
  get_elem? (x ∷ xs) zero = some x
  get_elem? (x ∷ xs) (suc i) = get_elem? xs i

  abbrev pub get_or : List A → ℕ → A → A
  get_or [] i d = d
  get_or (x ∷ xs) zero d = x
  get_or (x ∷ xs) (suc i) d = get_or xs i d

  abbrev pub take : ℕ → List A → List A
  take zero xs = []
  take (suc n) [] = []
  take (suc n) (x ∷ xs) = x ∷ take n xs

  abbrev pub drop : ℕ → List A → List A
  drop zero xs = xs
  drop (suc n) [] = []
  drop (suc n) (x ∷ xs) = drop n xs

  abbrev pub replicate : ℕ → A → List A
  replicate zero a = []
  replicate (suc n) a = a ∷ replicate n a

  -- `xs[from .. to]` for `from ≤ to ≤ xs.len()`.
  abbrev pub slice : ℕ → ℕ → List A → List A
  slice from to xs = take (to - from) (drop from xs)

  -- Every element satisfies the predicate.
  abbrev pub All {κ} : (A → Type κ) → List A → Type κ
  All P [] = Unit
  All P (x ∷ xs) = P x × All P xs

module _ {ℓ} {A : Type ℓ} where
  pub length-append : (xs ys : List A) → length (xs ++ ys) ≡ length xs + length ys
  length-append [] ys = omega arith
  length-append (x ∷ xs) ys = omega (arith, length-append xs ys)

  pub length-take : (n : ℕ) (xs : List A) → length (take n xs) ≡ min n (length xs)
  length-take zero xs = omega arith
  length-take (suc n) [] = omega arith
  length-take (suc n) (x ∷ xs) = omega (arith, length-take n xs)

  pub length-drop : (n : ℕ) (xs : List A) → length (drop n xs) ≡ length xs - n
  length-drop zero xs = omega arith
  length-drop (suc n) [] = omega arith
  length-drop (suc n) (x ∷ xs) = omega (arith, length-drop n xs)

  pub length-replicate : (n : ℕ) (a : A) → length (replicate n a) ≡ n
  length-replicate zero a = refl
  length-replicate (suc n) a = ap suc (length-replicate n a)

  pub take-append-drop : (n : ℕ) (xs : List A) → take n xs ++ drop n xs ≡ xs
  take-append-drop zero xs = refl
  take-append-drop (suc n) [] = refl
  take-append-drop (suc n) (x ∷ xs) = rw (take-append-drop n xs)

  pub take_all : (n : ℕ) (xs : List A) → length xs ≤ n → take n xs ≡ xs
  take_all zero [] h = refl
  take_all zero (x ∷ xs) h = absurd (omega arith)
  take_all (suc n) [] h = refl
  take_all (suc n) (x ∷ xs) h = rw (take_all n xs (omega arith))

  pub drop_all : (n : ℕ) (xs : List A) → length xs ≤ n → drop n xs ≡ []
  drop_all zero [] h = refl
  drop_all zero (x ∷ xs) h = absurd (omega arith)
  drop_all (suc n) [] h = refl
  drop_all (suc n) (x ∷ xs) h = drop_all n xs (omega arith)

  drop-nil : (k : ℕ) → drop {A = A} k [] ≡ []
  drop-nil zero = refl
  drop-nil (suc k) = refl

  pub drop-drop : (m n : ℕ) (xs : List A) → drop n (drop m xs) ≡ drop (n + m) xs
  drop-drop zero n xs = let e : n + 0 ≡ n = omega arith in rw e
  drop-drop (suc m) n [] = drop-nil n ∙ sym (drop-nil (n + suc m))
  drop-drop (suc m) n (x ∷ xs) =
      let e : n + suc m ≡ suc (n + m) = omega arith in rw e (drop-drop m n xs)

module _ {ℓ} {A : Type ℓ} where
  pub take-suc :
      (i : ℕ) (xs : List A) (d : A)
      → suc i ≤ length xs
      → take (suc i) xs ≡ take i xs ++ get_or xs i d ∷ []
  take-suc i [] d h = absurd (omega arith)
  take-suc zero (x ∷ xs) d h = refl
  take-suc (suc i) (x ∷ xs) d h = ap (λ t. x ∷ t) (take-suc i xs d (omega arith))

  pub take-add : (m n : ℕ) (xs : List A) → take (m + n) xs ≡ take m xs ++ take n (drop m xs)
  take-add zero n xs = let e : 0 + n ≡ n = omega arith in rw e
  take-add (suc m) zero [] = let e : suc m + 0 ≡ suc m = omega arith in rw e
  take-add (suc m) (suc n) [] = let e : suc m + suc n ≡ suc (m + suc n) = omega arith in rw e
  take-add (suc m) n (x ∷ xs) =
      let e : suc m + n ≡ suc (m + n) = omega arith in rw e (ap (λ t. x ∷ t) (take-add m n xs))

  pub drop-one : (i : ℕ) (xs : List A) → drop 1 (drop i xs) ≡ drop (suc i) xs
  drop-one i xs = let e : 1 + i ≡ suc i = omega arith in drop-drop i 1 xs ∙ ap (λ k. drop k xs) e

  -- A full window loses its first element and gains the one behind it.
  pub window-shift :
      (n : ℕ) (xs : List A) (d : A)
      → suc n ≤ length xs
      → 1 ≤ n
      → drop 1 (take n xs) ++ get_or xs n d ∷ [] ≡ take n (drop 1 xs)
  window-shift n [] d h p = absurd (omega arith)
  window-shift zero (x ∷ xs) d h p = absurd (omega arith)
  window-shift (suc n) (x ∷ xs) d h p = sym (take-suc n xs d (omega arith))

  pub get_or-drop : (i n : ℕ) (xs : List A) (d : A) → get_or (drop i xs) n d ≡ get_or xs (i + n) d
  get_or-drop zero n xs d = let e : 0 + n ≡ n = omega arith in rw e
  get_or-drop (suc i) n [] d = refl
  get_or-drop (suc i) n (x ∷ xs) d =
      let e : suc i + n ≡ suc (i + n) = omega arith in rw e (get_or-drop i n xs d)

  pub get_elem?-get_or :
      (i : ℕ) (xs : List A) (d : A) → suc i ≤ length xs → get_elem? xs i ≡ some (get_or xs i d)
  get_elem?-get_or i [] d h = absurd (omega arith)
  get_elem?-get_or zero (x ∷ xs) d h = refl
  get_elem?-get_or (suc i) (x ∷ xs) d h = get_elem?-get_or i xs d (omega arith)
