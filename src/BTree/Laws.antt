-- ===== src/BTree/Laws.antt =====
-- The laws of maps and sets that the program relies on.
use harmonic.Prelude.{Bool, true, false, ◌||◌, if◌then◌else◌, Option, none, some, List, [], ◌∷◌}
use harmonic.Prelude.{◌++◌, ◌≡◌, ◌≢◌, refl, ap, ◌∙◌, arith, Bool-cases, inl, inr}
use Prim.Native.Nat.Ordering.{lt}
use harmonic.Order.{Ord}
use harmonic.BTree.{BTreeMap, keys, ◌is◌, set_insert, collect_set, contains, get, insert, remove}

module _ {ℓ} {K : Type ℓ} ⦃o : Ord K⦄ where
  -- Every key of the list is above `b`.
  abbrev pub Above : K → List K → Type 0
  Above b [] = Unit
  Above b (k ∷ ks) = (o.cmp b k ≡ lt) × Above b ks

  -- Strictly increasing: the keys of a map, and a set.
  abbrev pub IsSorted : List K → Type 0
  IsSorted [] = Unit
  IsSorted (k ∷ ks) = Above k ks × IsSorted ks

  Above-trans : (a b : K) (ks : List K) → o.cmp a b ≡ lt → Above b ks → Above a ks
  Above-trans a b [] p h = tt
  Above-trans a b (k ∷ ks) p h = (o.lt_trans a b k p h.0, Above-trans a b ks p h.1)

  Above-set_insert : (b k : K) (s : List K) → o.cmp b k ≡ lt → Above b s → Above b (set_insert k s)
  unfolding set_insert
  Above-set_insert b k [] p h = (p, tt)
  Above-set_insert b k (j ∷ s) p h = ground (arith, Above-set_insert b k s)

  set_insert-IsSorted : (k : K) (s : List K) → IsSorted s → IsSorted (set_insert k s)
  unfolding set_insert
  set_insert-IsSorted k [] h = (tt, tt)
  set_insert-IsSorted k (j ∷ s) h =
      ground
        (arith, set_insert-IsSorted k s, Above-set_insert j k s, Above-trans k j s, o.lt_of_gt k j)

  pub collect_set-IsSorted : (ks : List K) → IsSorted (collect_set ks)
  unfolding collect_set
  collect_set-IsSorted [] = tt
  collect_set-IsSorted (k ∷ ks) = set_insert-IsSorted k (collect_set ks) (collect_set-IsSorted ks)

  contains-set_insert :
      (p k : K) (s : List K) → contains p (set_insert k s) ≡ (p is k || contains p s)
  unfolding contains set_insert
  contains-set_insert p k [] = refl
  contains-set_insert p k (j ∷ s) = ground (arith, contains-set_insert p k s, o.eq_of_cmp k j)

  pub contains-collect_set : (p : K) (ks : List K) → contains p (collect_set ks) ≡ contains p ks
  unfolding collect_set contains
  contains-collect_set p [] = refl
  contains-collect_set p (k ∷ ks) =
      ground (arith, contains-set_insert p k (collect_set ks), contains-collect_set p ks)

  pub contains-append :
      (p : K) (xs ys : List K) → contains p (xs ++ ys) ≡ (contains p xs || contains p ys)
  unfolding contains
  contains-append p [] ys = refl
  contains-append p (x ∷ xs) ys = ground (arith, contains-append p xs ys)

  contains_below : (p b : K) (ks : List K) → Above b ks → o.cmp p b ≡ lt → contains p ks ≡ false
  unfolding contains
  contains_below p b [] h q = refl
  contains_below p b (k ∷ ks) h q = ground (arith, o.lt_trans p b k, contains_below p b ks h.1 q)

  pub contains-Above : (b : K) (ks : List K) → Above b ks → contains b ks ≡ false
  unfolding contains
  contains-Above b [] h = refl
  contains-Above b (k ∷ ks) h = ground (arith, contains-Above b ks h.1)

  pub is-eq : (p k : K) → (p is k) ≡ true → p ≡ k
  is-eq p k e = ground (arith, o.eq_of_cmp p k)

  pub is_refl : (p : K) → (p is p) ≡ true
  is_refl p = ground (arith, o.cmp_refl p)

  pub not-is : (p k : K) → p ≢ k → (p is k) ≡ false
  not-is p k h = elim (Bool-cases (p is k)) [ inl same ↦ absurd (h (is-eq p k same)) | inr e ↦ e ]

abbrev pub is_some {ℓ} : {A : Type ℓ} → Option A → Bool
is_some none = false
is_some (some a) = true

module _ {ℓ κ} {K : Type ℓ} {V : Type κ} ⦃o : Ord K⦄ where
  -- The keys of a map are those that it has a value for.
  pub contains-keys :
      (p : K) (m : BTreeMap K V) → IsSorted (keys m) → contains p (keys m) ≡ is_some (get p m)
  unfolding contains keys get
  contains-keys p [] h = refl
  contains-keys p ((k, v) ∷ m) h =
      ground (arith, contains-keys p m h.1, contains_below p k (keys m) h.0)

  pub get-insert :
      (p k : K) (v : V) (m : BTreeMap K V)
      → get p (insert k v m) ≡ (if p is k then some v else get p m)
  unfolding get insert
  get-insert p k v [] = ground arith
  get-insert p k v ((j, w) ∷ m) = ground (
    arith,
    get-insert p k v m,
    o.eq_of_cmp k j,
    o.eq_of_cmp p k,
    o.lt_trans p k j,
    o.lt_of_gt k j,
    o.lt_trans j k p,
    o.gt_of_lt j p,
    o.lt_of_gt p k,
  )

  pub get-insert_same : (k : K) (v : V) (m : BTreeMap K V) → get k (insert k v m) ≡ some v
  get-insert_same k v m = ground (arith, get-insert k k v m, is_refl k)

  pub get-insert_other :
      (p k : K) (v : V) (m : BTreeMap K V) → p ≢ k → get p (insert k v m) ≡ get p m
  get-insert_other p k v m h =
      get-insert p k v m ∙ ap (λ b. if b then some v else get p m) (not-is p k h)

  Above-insert :
      (b k : K) (v : V) (m : BTreeMap K V)
      → o.cmp b k ≡ lt
      → Above b (keys m)
      → Above b (keys (insert k v m))
  unfolding keys insert
  Above-insert b k v [] p h = (p, tt)
  Above-insert b k v ((j, w) ∷ m) p h = ground (arith, Above-insert b k v m)

  pub insert-IsSorted :
      (k : K) (v : V) (m : BTreeMap K V) → IsSorted (keys m) → IsSorted (keys (insert k v m))
  unfolding keys insert
  insert-IsSorted k v [] h = (tt, tt)
  insert-IsSorted k v ((j, w) ∷ m) h =
      ground (
        arith,
        insert-IsSorted k v m,
        Above-insert j k v m,
        Above-trans k j (keys m),
        o.lt_of_gt k j,
      )

  Above-remove :
      (b k : K) (m : BTreeMap K V)
      → IsSorted (keys m)
      → Above b (keys m)
      → Above b (keys (remove k m))
  unfolding keys remove
  Above-remove b k [] sorted h = tt
  Above-remove b k ((j, w) ∷ m) sorted h = ground (arith, Above-remove b k m)

  pub remove-IsSorted :
      (k : K) (m : BTreeMap K V) → IsSorted (keys m) → IsSorted (keys (remove k m))
  unfolding keys remove
  remove-IsSorted k [] h = tt
  remove-IsSorted k ((j, w) ∷ m) h =
      ground (arith, remove-IsSorted k m h.1, Above-remove j k m h.1 h.0)

  get-below : (p b : K) (m : BTreeMap K V) → Above b (keys m) → o.cmp p b ≡ lt → get p m ≡ none
  unfolding get keys
  get-below p b [] h q = refl
  get-below p b ((k, v) ∷ m) h q = ground (arith, o.lt_trans p b k q)

  get-Above : (b : K) (m : BTreeMap K V) → Above b (keys m) → get b m ≡ none
  unfolding get keys
  get-Above b [] h = refl
  get-Above b ((k, v) ∷ m) h = ground arith

  pub get-remove :
      (p k : K) (m : BTreeMap K V)
      → IsSorted (keys m)
      → get p (remove k m) ≡ (if p is k then none else get p m)
  unfolding get remove keys
  get-remove p k [] h = ground arith
  get-remove p k ((j, w) ∷ m) h = ground (
    arith,
    get-remove p k m h.1,
    get-Above j m h.0,
    get-below p j m h.0,
    o.eq_of_cmp k j,
    o.eq_of_cmp p k,
    o.lt_trans p k j,
    o.lt_of_gt k j,
    o.lt_trans j k p,
    o.gt_of_lt j p,
    o.lt_of_gt p k,
  )
