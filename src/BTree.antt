-- ===== src/BTree.antt =====
-- `BTreeMap` and `BTreeSet` as lists in the order of their keys.
pub mod Laws
use harmonic.Prelude.{
  Bool, true, false, ◌||◌, if◌then◌else◌, Ordering, Option, none, some, List, [], ◌∷◌, map,
}
use Prim.Native.Nat.Ordering.{lt, eq, gt}
use harmonic.Order.{Ord}

abbrev pub BTreeMap {ℓ κ} : Type ℓ → Type κ → Type (ℓ ⊔ κ)
BTreeMap K V = List (K × V)

unfoldable pub keys {ℓ κ} : {K : Type ℓ} {V : Type κ} → BTreeMap K V → List K
keys [] = []
keys ((k, v) ∷ m) = k ∷ keys m

module _ {ℓ} {K : Type ℓ} ⦃o : Ord K⦄ where
  infix 50 ◌is◌
  abbrev pub ◌is◌ : K → K → Bool
  p is k = elim (o.cmp p k) [ lt ↦ false | eq ↦ true | gt ↦ false ]

  -- `BTreeSet::insert`
  unfoldable pub set_insert : K → List K → List K
  set_insert k [] = k ∷ []
  set_insert k (j ∷ s) = elim (o.cmp k j) [ lt ↦ k ∷ j ∷ s | eq ↦ j ∷ s | gt ↦ j ∷ set_insert k s ]

  -- `collect` into a `BTreeSet`.
  unfoldable pub collect_set : List K → List K
  collect_set [] = []
  collect_set (k ∷ ks) = set_insert k (collect_set ks)

  unfoldable pub contains : K → List K → Bool
  contains p [] = false
  contains p (k ∷ ks) = p is k || contains p ks

module _ {ℓ κ} {K : Type ℓ} {V : Type κ} ⦃o : Ord K⦄ where
  unfoldable pub get : K → BTreeMap K V → Option V
  get p [] = none
  get p ((k, v) ∷ m) = elim (o.cmp p k) [ lt ↦ none | eq ↦ some v | gt ↦ get p m ]

  unfoldable pub insert : K → V → BTreeMap K V → BTreeMap K V
  insert k v [] = (k, v) ∷ []
  insert k v ((j, w) ∷ m) = elim (o.cmp k j) [
    | lt ↦ (k, v) ∷ (j, w) ∷ m
    | eq ↦ (j, v) ∷ m
    | gt ↦ (j, w) ∷ insert k v m
  ]

  unfoldable pub remove : K → BTreeMap K V → BTreeMap K V
  remove k [] = []
  remove k ((j, w) ∷ m) = elim (o.cmp k j) [ lt ↦ (j, w) ∷ m | eq ↦ m | gt ↦ (j, w) ∷ remove k m ]
