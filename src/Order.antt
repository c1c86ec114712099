-- ===== src/Order.antt =====
-- `Ord` of the Rust types that serve as keys: numbers, strings, paths.
pub mod Lists
use harmonic.Prelude.{ℕ, compare, Ordering, ◌≡◌, arith}
use Prim.Native.Nat.Ordering.{lt, eq, gt}

-- The laws that `Ord` asks of `cmp`.
pub record IsLawful {ℓ} {K : Type ℓ} (cmp : K → K → Ordering) : Type ℓ where
  pub lt_trans : (i j k : K) → cmp i j ≡ lt → cmp j k ≡ lt → cmp i k ≡ lt
  pub gt_of_lt : (i j : K) → cmp i j ≡ lt → cmp j i ≡ gt
  pub lt_of_gt : (i j : K) → cmp i j ≡ gt → cmp j i ≡ lt
  pub eq_of_cmp : (i j : K) → cmp i j ≡ eq → i ≡ j
  pub cmp_refl : (i : K) → cmp i i ≡ eq

-- A type of keys with its comparison.
pub record Ord {ℓ} (K : Type ℓ) : Type ℓ where
  pub cmp : K → K → Ordering
  pub lawful : IsLawful cmp
  pub open lawful use *

pub compare-IsLawful : IsLawful compare
compare-IsLawful = ground arith

-- The first difference decides.
abbrev pub and_then : Ordering → Ordering → Ordering
and_then eq second = second
and_then lt second = lt
and_then gt second = gt
