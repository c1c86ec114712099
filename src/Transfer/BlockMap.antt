-- ===== src/Transfer/BlockMap.antt =====
-- The map of `send_delta_from_block_signatures` from checksums to block indices:
-- `HashMap<u64, HashMap<[u8; 32], u32>>` as association lists.
use harmonic.Prelude.{ℕ, zero, suc, ◌+◌, ◌%◌, ◌^◌, ◌≡◌, refl, sym, arith, ◌&&◌, ◌==◌}
use harmonic.Prelude.{◌⊎◌, inl, inr, Bool-cases}
use harmonic.Prelude.{if◌then◌else◌, bytes_eq, bytes_eq_sound, bytes_eq_refl}
use harmonic.Prelude.{Option, none, some, List, [], ◌∷◌, length, get_elem?}
use mathlib.Core.Path.{subst}
use mathlib.Core.Option.{some-injective}
use harmonic.Text.{Bytes}
use harmonic.Proto.{BlockSignature}

abbrev pub StrongMap : Type 0
StrongMap = List (Bytes × ℕ)

abbrev pub WeakMap : Type 0
WeakMap = List (ℕ × StrongMap)

unfoldable pub strong_get : StrongMap → Bytes → Option ℕ
strong_get [] strong = none
strong_get ((key, index) ∷ m) strong =
    if bytes_eq key strong then some index else strong_get m strong

unfoldable pub strong_insert : StrongMap → Bytes → ℕ → StrongMap
strong_insert [] strong index = (strong, index) ∷ []
strong_insert ((key, old) ∷ m) strong index =
    if bytes_eq key strong then (key, index) ∷ m else (key, old) ∷ strong_insert m strong index

unfoldable pub weak_get : WeakMap → ℕ → Option StrongMap
weak_get [] weak = none
weak_get ((key, inner) ∷ m) weak = if key == weak then some inner else weak_get m weak

-- `acc.entry(weak).or_insert_with(HashMap::new).insert(strong, index)`
unfoldable pub entry_insert : WeakMap → ℕ → Bytes → ℕ → WeakMap
unfolding strong_insert
entry_insert [] weak strong index = (weak, strong_insert [] strong index) ∷ []
entry_insert ((key, inner) ∷ m) weak strong index =
    if key == weak
    then (key, strong_insert inner strong index) ∷ m
    else (key, inner) ∷ entry_insert m weak strong index

-- `map.get(weak)`, and in what it finds `get(strong)`.
unfoldable pub find_block : WeakMap → ℕ → Bytes → Option ℕ
unfolding weak_get strong_get
find_block m weak strong = elim (weak_get m weak) [
  | none ↦ none
  | some inner ↦ strong_get inner strong
]

-- The closure of the `fold`: a checksum that is not of 32 bytes is passed over.
unfoldable pub add_block : WeakMap → ℕ → BlockSignature → WeakMap
unfolding entry_insert
add_block acc index b =
    if length b.strong_checksum == 32
    then entry_insert acc b.weak_checksum b.strong_checksum (index % 2 ^ 32)
    else acc

unfoldable pub fold_blocks : WeakMap → ℕ → List BlockSignature → WeakMap
unfolding add_block
fold_blocks acc index [] = acc
fold_blocks acc index (b ∷ blocks) = fold_blocks (add_block acc index b) (index + 1) blocks

unfoldable pub block_map : List BlockSignature → WeakMap
unfolding fold_blocks
block_map blocks = fold_blocks [] 0 blocks

strong_get-insert :
    (m : StrongMap) (strong other : Bytes) (index : ℕ)
    → strong_get (strong_insert m strong index) other
      ≡ (if bytes_eq strong other then some index else strong_get m other)
unfolding strong_get strong_insert
strong_get-insert [] strong other index = refl
strong_get-insert ((key, old) ∷ m) strong other index = ground (
  arith,
  bytes_eq_sound key strong,
  bytes_eq_sound key other,
  bytes_eq_sound strong other,
  bytes_eq_refl key,
  strong_get-insert m strong other index,
)

find_block-insert :
    (m : WeakMap) (weak w : ℕ) (strong other : Bytes) (index : ℕ)
    → find_block (entry_insert m weak strong index) w other
      ≡ (if (weak == w) && bytes_eq strong other then some index else find_block m w other)
unfolding find_block entry_insert
find_block-insert [] weak w strong other index = ground arith
find_block-insert ((key, inner) ∷ m) weak w strong other index = ground (
  arith,
  strong_get-insert inner strong other index,
  find_block-insert m weak w strong other index,
)

-- A block of the list from `index` on that has the two checksums and is known by `k`.
pub record Listed (index : ℕ) (blocks : List BlockSignature) (weak : ℕ) (strong : Bytes) (k : ℕ)
    : Type 0 where
  pub place : ℕ
  pub signature : BlockSignature
  pub found : get_elem? blocks place ≡ some signature
  pub same_weak : signature.weak_checksum ≡ weak
  pub same_strong : signature.strong_checksum ≡ strong
  pub same_index : k ≡ (index + place) % 2 ^ 32

Listed-later :
    {index : ℕ} {b : BlockSignature} {blocks : List BlockSignature} {weak : ℕ} {strong : Bytes}
    {k : ℕ}
    → Listed (index + 1) blocks weak strong k
    → Listed index (b ∷ blocks) weak strong k
Listed-later l = record {
  place = suc l.place;
  signature = l.signature;
  found = l.found;
  same_weak = l.same_weak;
  same_strong = l.same_strong;
  same_index = omega (arith, l.same_index);
}

find_block-add_block :
    (acc : WeakMap) (index : ℕ) (b : BlockSignature) (weak : ℕ) (strong : Bytes) (k : ℕ)
    → find_block (add_block acc index b) weak strong ≡ some k
    → (find_block acc weak strong ≡ some k)
      ⊎ ((b.weak_checksum ≡ weak) × (b.strong_checksum ≡ strong) × (k ≡ index % 2 ^ 32))
unfolding add_block
find_block-add_block acc index b weak strong k h = ground (
  arith,
  find_block-insert acc b.weak_checksum weak b.strong_checksum strong (index % 2 ^ 32),
  bytes_eq_sound b.strong_checksum strong,
)

find_block-fold :
    (acc : WeakMap) (index : ℕ) (blocks : List BlockSignature) (weak : ℕ) (strong : Bytes) (k : ℕ)
    → find_block (fold_blocks acc index blocks) weak strong ≡ some k
    → (find_block acc weak strong ≡ some k) ⊎ Listed index blocks weak strong k
unfolding fold_blocks
find_block-fold acc index [] weak strong k h = inl h
find_block-fold acc index (b ∷ blocks) weak strong k h =
    elim (find_block-fold (add_block acc index b) (index + 1) blocks weak strong k h) [
      | inr l ↦ inr (Listed-later l)
      | inl e ↦ elim (find_block-add_block acc index b weak strong k e) [
        | inl old ↦ inl old
        | inr new ↦ inr (record {
          place = 0;
          signature = b;
          found = refl;
          same_weak = new.0;
          same_strong = new.1;
          same_index = omega (arith, new.2);
        })
      ]
    ]

-- An index that the map of a list of blocks gives for two checksums is the place, modulo 2 ^ 32, of
-- a block of the list that has both.
pub find_block-Listed :
    (blocks : List BlockSignature) (weak : ℕ) (strong : Bytes) (k : ℕ)
    → find_block (block_map blocks) weak strong ≡ some k
    → Listed 0 blocks weak strong k
unfolding block_map find_block
find_block-Listed blocks weak strong k h = elim (find_block-fold [] 0 blocks weak strong k h) [
  | inl e ↦ cc
  | inr l ↦ l
]

keep_add_block :
    (acc : WeakMap) (index : ℕ) (b : BlockSignature) (weak : ℕ) (strong : Bytes) (k : ℕ)
    → find_block acc weak strong ≡ some k
    → (k' : ℕ) × (find_block (add_block acc index b) weak strong ≡ some k')
unfolding add_block
keep_add_block acc index b weak strong k h =
    let both = (b.weak_checksum == weak) && bytes_eq b.strong_checksum strong in
    let insert =
      find_block-insert acc b.weak_checksum weak b.strong_checksum strong (index % 2 ^ 32) in
    elim (Bool-cases (length b.strong_checksum == 32)) [
      | inr e ↦ (k, rw e h)
      | inl e ↦ elim (Bool-cases both) [
        | inl same ↦ (index % 2 ^ 32, rw e (ground (arith, insert)))
        | inr other ↦ (k, rw e (ground (arith, insert)))
      ]
    ]

keep_fold :
    (acc : WeakMap) (index : ℕ) (blocks : List BlockSignature) (weak : ℕ) (strong : Bytes) (k : ℕ)
    → find_block acc weak strong ≡ some k
    → (k' : ℕ) × (find_block (fold_blocks acc index blocks) weak strong ≡ some k')
unfolding fold_blocks
keep_fold acc index [] weak strong k h = (k, h)
keep_fold acc index (b ∷ blocks) weak strong k h =
    let (k', h') = keep_add_block acc index b weak strong k h in
    keep_fold (add_block acc index b) (index + 1) blocks weak strong k' h'

find_add_block :
    (acc : WeakMap) (index : ℕ) (b : BlockSignature)
    → length b.strong_checksum ≡ 32
    → find_block (add_block acc index b) b.weak_checksum b.strong_checksum ≡ some (index % 2 ^ 32)
unfolding add_block
find_add_block acc index b size = ground (
  arith,
  find_block-insert acc b.weak_checksum b.weak_checksum b.strong_checksum b.strong_checksum
      (index % 2 ^ 32),
  bytes_eq_refl b.strong_checksum,
)

find_fold :
    (acc : WeakMap) (index : ℕ) (blocks : List BlockSignature) (place : ℕ) (b : BlockSignature)
    → get_elem? blocks place ≡ some b
    → length b.strong_checksum ≡ 32
    → (k : ℕ) × (find_block (fold_blocks acc index blocks) b.weak_checksum b.strong_checksum
        ≡ some k)
unfolding fold_blocks add_block
find_fold acc index [] place b h size = cc
find_fold acc index (a ∷ blocks) (suc place) b h size =
    find_fold (add_block acc index a) (index + 1) blocks place b h size
find_fold acc index (a ∷ blocks) zero b h size =
    keep_fold (add_block acc index a) (index + 1) blocks b.weak_checksum b.strong_checksum
      (index % 2 ^ 32)
      (subst
        (λ c.
          find_block (add_block acc index a) c.weak_checksum c.strong_checksum
          ≡ some (index % 2 ^ 32))
        (some-injective a b h)
        (find_add_block acc index a
          (subst (λ c. length c.strong_checksum ≡ 32) (sym (some-injective a b h)) size)))

-- For the checksums of any block of a list, if the strong one has 32 bytes, the map of the list gives
-- an index.
pub find_block_complete :
    (blocks : List BlockSignature) (place : ℕ) (b : BlockSignature)
    → get_elem? blocks place ≡ some b
    → length b.strong_checksum ≡ 32
    → (k : ℕ) × (find_block (block_map blocks) b.weak_checksum b.strong_checksum ≡ some k)
unfolding block_map
find_block_complete blocks place b h size = find_fold [] 0 blocks place b h size
