-- ===== src/Order/Lists.antt =====
-- The lexicographic order of lists, and orders read off another value.
use harmonic.Prelude.{Ordering, ◌≡◌, refl, arith, List, [], ◌∷◌}
use Prim.Native.Nat.Ordering.{lt, eq, gt}
use harmonic.Order.{IsLawful, and_then}

module _ {ℓ} {A : Type ℓ} (cmp : A → A → Ordering) where
  unfoldable pub lex : List A → List A → Ordering
  lex [] [] = eq
  lex [] (y ∷ ys) = lt
  lex (x ∷ xs) [] = gt
  lex (x ∷ xs) (y ∷ ys) = and_then (cmp x y) (lex xs ys)

module _ {ℓ} {A : Type ℓ} (cmp : A → A → Ordering) (h : IsLawful cmp) where
  lex_refl : (xs : List A) → lex cmp xs xs ≡ eq
  unfolding lex
  lex_refl [] = refl
  lex_refl (x ∷ xs) = ground (arith, h.cmp_refl x, lex_refl xs)

  lex-eq : (xs ys : List A) → lex cmp xs ys ≡ eq → xs ≡ ys
  unfolding lex
  lex-eq [] [] e = refl
  lex-eq [] (y ∷ ys) e = cc
  lex-eq (x ∷ xs) [] e = cc
  lex-eq (x ∷ xs) (y ∷ ys) e = ground (arith, h.eq_of_cmp x y, lex-eq xs ys)

  lex-gt : (xs ys : List A) → lex cmp xs ys ≡ lt → lex cmp ys xs ≡ gt
  unfolding lex
  lex-gt [] [] e = cc
  lex-gt [] (y ∷ ys) e = refl
  lex-gt (x ∷ xs) [] e = cc
  lex-gt (x ∷ xs) (y ∷ ys) e =
      ground (arith, h.eq_of_cmp x y, h.gt_of_lt x y, h.cmp_refl x, lex-gt xs ys)

  lex-lt : (xs ys : List A) → lex cmp xs ys ≡ gt → lex cmp ys xs ≡ lt
  unfolding lex
  lex-lt [] [] e = cc
  lex-lt [] (y ∷ ys) e = cc
  lex-lt (x ∷ xs) [] e = refl
  lex-lt (x ∷ xs) (y ∷ ys) e =
      ground (arith, h.eq_of_cmp x y, h.lt_of_gt x y, h.cmp_refl x, lex-lt xs ys)

  lex_trans : (xs ys zs : List A) → lex cmp xs ys ≡ lt → lex cmp ys zs ≡ lt → lex cmp xs zs ≡ lt
  unfolding lex
  lex_trans [] [] zs p q = cc
  lex_trans [] (y ∷ ys) [] p q = cc
  lex_trans [] (y ∷ ys) (z ∷ zs) p q = refl
  lex_trans (x ∷ xs) [] zs p q = cc
  lex_trans (x ∷ xs) (y ∷ ys) [] p q = cc
  lex_trans (x ∷ xs) (y ∷ ys) (z ∷ zs) p q =
      ground (
        arith,
        h.eq_of_cmp x y,
        h.eq_of_cmp y z,
        h.lt_trans x y z,
        h.cmp_refl x,
        lex_trans xs ys zs,
      )

  pub lex-IsLawful : IsLawful (lex cmp)
  lex-IsLawful = record {
    cmp_refl = lex_refl;
    eq_of_cmp = lex-eq;
    gt_of_lt = lex-gt;
    lt_of_gt = lex-lt;
    lt_trans = lex_trans;
  }

module _ {ℓ κ} {A : Type ℓ} {B : Type κ} (f : A → B) (cmp : B → B → Ordering) (h : IsLawful cmp)
    (injective : (x y : A) → f x ≡ f y → x ≡ y) where
  -- Comparing by an injective key.
  pub by_key-IsLawful : IsLawful (λ x y. cmp (f x) (f y))
  by_key-IsLawful = record {
    cmp_refl = λ x. h.cmp_refl (f x);
    eq_of_cmp = λ x y e. injective x y (h.eq_of_cmp (f x) (f y) e);
    gt_of_lt = λ x y. h.gt_of_lt (f x) (f y);
    lt_of_gt = λ x y. h.lt_of_gt (f x) (f y);
    lt_trans = λ x y z. h.lt_trans (f x) (f y) (f z);
  }
