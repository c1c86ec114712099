-- ===== src/Hash/Rolling.antt =====
-- Rolling a window by one byte gives the hash that `compute` finds for the moved window.
use Prim.Native.Nat.{bit_xor}
use harmonic.Prelude.{◌⊎◌, inl, inr, append-nil}
use harmonic.Prelude.{ℕ, zero, suc, ◌+◌, ◌-◌, ◌^◌, ◌≤◌, ◌<◌, ◌≡◌, refl, sym, ◌∙◌, ap, arith}
use harmonic.Prelude.{Bool, true, ◌&&◌, ltb, Option, none, some, List, [], ◌∷◌, ◌++◌}
use harmonic.Prelude.{
  length, get_or, take, drop, length-take, length-append, length-drop, take_all, append_assoc,
}
use harmonic.Bits.{zero-xor, xor-zero, xor_self, xor_comm, xor_assoc, xor-lt}
use harmonic.Hash.{BuzHash, buz_hash_table, table_at, rotate, rotated, fold_xor, new, compute}
use harmonic.Hash.{roll_window, roll}
use harmonic.Hash.Rotate.{rotate-lt, rotate-xor, rotate-rotate_one}

words : List ℕ → Bool
words [] = true
words (x ∷ xs) = ltb x (2 ^ 64) && words xs

table_words : words buz_hash_table ≡ true
unfolding words
table_words = refl

get_or-lt : (xs : List ℕ) (i : ℕ) → words xs ≡ true → get_or xs i 0 < 2 ^ 64
unfolding words
get_or-lt [] i h = omega arith
get_or-lt (x ∷ xs) zero h = ground arith
get_or-lt (x ∷ xs) (suc i) h = get_or-lt xs i (ground arith)

table_at-lt : (x : ℕ) → table_at x < 2 ^ 64
unfolding table_at
table_at-lt x = get_or-lt buz_hash_table x table_words

-- The hash of a window read as a polynomial: each byte's table entry, rotated by the number of
-- bytes behind it.
pub polynomial : List ℕ → ℕ
polynomial [] = 0
polynomial (x ∷ xs) = bit_xor (rotate (table_at x) (length xs)) (polynomial xs)

pub polynomial-lt : (xs : List ℕ) → polynomial xs < 2 ^ 64
unfolding polynomial
polynomial-lt [] = omega arith
polynomial-lt (x ∷ xs) =
    xor-lt 64 (rotate (table_at x) (length xs)) (polynomial xs)
      (rotate-lt (table_at x) (length xs) (table_at-lt x)) (polynomial-lt xs)

fold_xor_acc : (acc : ℕ) (xs : List ℕ) → fold_xor acc xs ≡ bit_xor acc (fold_xor 0 xs)
unfolding fold_xor
fold_xor_acc acc [] = sym (xor-zero acc)
fold_xor_acc acc (x ∷ xs) =
    fold_xor_acc (bit_xor acc x) xs
    ∙ xor_assoc acc x (fold_xor 0 xs)
    ∙ ap (bit_xor acc) (sym (fold_xor_acc x xs) ∙ ap (λ t. fold_xor t xs) (sym (zero-xor x)))

rotated-polynomial :
    (size n : ℕ) (xs : List ℕ)
    → n + length xs ≡ size
    → fold_xor 0 (rotated size n xs) ≡ polynomial xs
unfolding rotated fold_xor polynomial
rotated-polynomial size n [] e = refl
rotated-polynomial size n (x ∷ xs) e =
    let k : size - (1 + n) ≡ length xs = omega arith in
    ap (λ t. fold_xor t (rotated size (n + 1) xs)) (zero-xor _)
    ∙ fold_xor_acc (rotate (table_at x) (size - (1 + n))) (rotated size (n + 1) xs)
    ∙ rw (k, rotated-polynomial size (n + 1) xs (omega arith))

rotate_zero : (x : ℕ) → rotate x 0 ≡ x
unfolding rotate
rotate_zero x = refl

zero_rotate : rotate 0 1 ≡ 0
unfolding rotate
zero_rotate = refl

polynomial-push :
    (xs : List ℕ) (b : ℕ)
    → polynomial (xs ++ b ∷ []) ≡ bit_xor (rotate (polynomial xs) 1) (table_at b)
unfolding polynomial
polynomial-push [] b = rw (rotate_zero, zero_rotate, zero-xor) (xor-zero (table_at b))
polynomial-push (x ∷ xs) b =
    let e : length (xs ++ b ∷ []) ≡ length xs + 1 = length-append xs (b ∷ []) in
    let first = rotate (table_at x) (length xs) in
    rw
      (
        e,
        polynomial-push xs b,
        ← rotate-rotate_one (table_at x) (length xs) (table_at-lt x),
        rotate-xor first (polynomial xs) 1 (rotate-lt (table_at x) (length xs) (table_at-lt x))
            (polynomial-lt xs),
      )
      (sym (xor_assoc (rotate first 1) (rotate (polynomial xs) 1) (table_at b)))

-- The hash of a window of full length is that of its bytes.
pub record IsRolling (h : BuzHash) : Type 0 where
  pub full : length h.window ≡ h.window_size
  pub hashed : h.hash ≡ polynomial h.window

pub compute-IsRolling :
    (h : BuzHash) (bytes : List ℕ) → h.window_size ≤ length bytes → IsRolling (compute h bytes)
unfolding compute
compute-IsRolling h bytes enough =
    let full : length (take h.window_size bytes) ≡ h.window_size =
      omega (arith, length-take h.window_size bytes) in
    record {
      full = full;
      hashed = rotated-polynomial h.window_size 0 (take h.window_size bytes) (omega arith);
    }

cancel : (a b c : ℕ) → bit_xor (bit_xor (bit_xor a b) a) c ≡ bit_xor b c
cancel a b c =
    ap (λ t. bit_xor (bit_xor t a) c) (xor_comm a b)
    ∙ ap (λ t. bit_xor t c) (xor_assoc b a a ∙ ap (bit_xor b) (xor_self a) ∙ xor-zero b)

-- What `roll` leaves: the window moved on by one byte, with its hash.
pub record IsRolled (h : BuzHash) (b : ℕ) : Type 0 where
  pub after : BuzHash
  pub rolls : roll h b ≡ some after
  pub same_size : after.window_size ≡ h.window_size
  pub moved : after.window ≡ drop 1 h.window ++ b ∷ []
  pub rolling : IsRolling after

rotate-polynomial :
    (bye : ℕ) (rest : List ℕ)
    → rotate (polynomial (bye ∷ rest)) 1
      ≡ bit_xor (rotate (table_at bye) (length rest + 1)) (rotate (polynomial rest) 1)
unfolding polynomial
rotate-polynomial bye rest =
    let first = rotate (table_at bye) (length rest) in
    rotate-xor first (polynomial rest) 1 (rotate-lt (table_at bye) (length rest) (table_at-lt bye))
      (polynomial-lt rest)
    ∙ ap (λ t. bit_xor t (rotate (polynomial rest) 1))
        (rotate-rotate_one (table_at bye) (length rest) (table_at-lt bye))

roll_window-IsRolled :
    (h : BuzHash) (b bye : ℕ) (rest : List ℕ) → h.window ≡ bye ∷ rest → IsRolling h → IsRolled h b
unfolding roll
roll_window-IsRolled h b bye rest e v = record {
  after = record h { window = rest ++ b ∷ []; hash = moved_hash };
  rolls = rw (e, roll_window);
  same_size = refl;
  moved = rw e;
  rolling = record { full = full; hashed = hashed };
}
  where
    size : length rest + 1 ≡ h.window_size
    size = omega (arith, ap length e, v.full)

    full : length (rest ++ b ∷ []) ≡ h.window_size
    full = length-append rest (b ∷ []) ∙ size

    moved_hash : ℕ
    moved_hash =
        bit_xor (bit_xor (rotate h.hash 1) (rotate (table_at bye) h.window_size)) (table_at b)

    turned :
        rotate h.hash 1 ≡ bit_xor (rotate (table_at bye) h.window_size) (rotate (polynomial rest) 1)
    turned =
        ap (λ t. rotate t 1) (v.hashed ∙ ap polynomial e)
        ∙ rotate-polynomial bye rest
        ∙ ap (λ n. bit_xor (rotate (table_at bye) n) (rotate (polynomial rest) 1)) size

    hashed : moved_hash ≡ polynomial (rest ++ b ∷ [])
    hashed =
        ap (λ t. bit_xor (bit_xor t (rotate (table_at bye) h.window_size)) (table_at b)) turned
        ∙ cancel (rotate (table_at bye) h.window_size) (rotate (polynomial rest) 1) (table_at b)
        ∙ sym (polynomial-push rest b)

List-cases {ℓ} :
    {A : Type ℓ} (xs : List A) → (xs ≡ []) ⊎ ((x : A) × (rest : List A) × (xs ≡ x ∷ rest))
List-cases [] = inl refl
List-cases (x ∷ rest) = inr (x, rest, refl)

-- A non-empty rolling window always rolls, and its hash stays that of its bytes.
pub roll-IsRolled : (h : BuzHash) (b : ℕ) → 0 < h.window_size → IsRolling h → IsRolled h b
roll-IsRolled h b pos v = elim (List-cases h.window) [
  | inl e ↦ absurd (omega (arith, ap length e, v.full))
  | inr (bye, rest, e) ↦ roll_window-IsRolled h b bye rest e v
]

-- `for &byte in bytes { hasher.roll(byte); }`
pub roll_all : BuzHash → List ℕ → Option BuzHash
roll_all h [] = some h
roll_all h (b ∷ bytes) = elim (roll h b) [ none ↦ none | some h' ↦ roll_all h' bytes ]

-- A rolling hasher over a whole text, and what it ends with.
pub record RollsTo (h : BuzHash) (bytes : List ℕ) : Type 0 where
  pub after : BuzHash
  pub rolls : roll_all h bytes ≡ some after
  pub same_size : after.window_size ≡ h.window_size
  pub moved : after.window ≡ drop (length bytes) (h.window ++ bytes)
  pub rolling : IsRolling after

moved_one :
    (window : List ℕ) (b : ℕ) (bytes : List ℕ)
    → 0 < length window
    → drop (length bytes) ((drop 1 window ++ b ∷ []) ++ bytes)
      ≡ drop (suc (length bytes)) (window ++ b ∷ bytes)
moved_one [] b bytes h = absurd (omega arith)
moved_one (x ∷ rest) b bytes h = rw (append_assoc rest (b ∷ []) bytes)

roll_all-RollsTo :
    (h : BuzHash) (bytes : List ℕ) → 0 < h.window_size → IsRolling h → RollsTo h bytes
unfolding roll_all
roll_all-RollsTo h [] pos v = record {
  after = h;
  rolls = refl;
  same_size = refl;
  moved = sym (append-nil h.window);
  rolling = v;
}
roll_all-RollsTo h (b ∷ bytes) pos v =
    let one = roll-IsRolled h b pos v in
    let rest = roll_all-RollsTo one.after bytes (rw one.same_size pos) one.rolling in
    record {
      after = rest.after;
      rolls = rw (one.rolls, roll_all) rest.rolls;
      same_size = rest.same_size ∙ one.same_size;
      moved =
          rest.moved
          ∙ ap (λ t. drop (length bytes) (t ++ bytes)) one.moved
          ∙ moved_one h.window b bytes (rw v.full pos);
      rolling = rest.rolling;
    }

-- On a text of the right length `compute` gives its polynomial.
pub compute-polynomial :
    (size : ℕ) (text : List ℕ)
    → length text ≡ size
    → (compute (new size) text).hash ≡ polynomial text
unfolding compute new
compute-polynomial size text e =
    (compute-IsRolling (new size) text (omega arith)).hashed
    ∙ ap polynomial (take_all size text (omega arith))

-- For a positive window size: to compute the hash of a text of that length and to roll it on through
-- any further bytes never panics, and gives the hash that `compute` gives for the last bytes of that
-- number.
pub roll-compute :
    (size : ℕ) (text bytes : List ℕ)
    → 0 < size
    → length text ≡ size
    → (after : BuzHash) × (roll_all (compute (new size) text) bytes ≡ some after)
      × (after.hash ≡ (compute (new size) (drop (length bytes) (text ++ bytes))).hash)
roll-compute size text bytes pos e =
    (rolled.after, rolled.rolls, rolled.rolling.hashed ∙ ap polynomial moved ∙ sym last)
  where
    rolled : RollsTo (compute (new size) text) bytes
    rolled =
        unfold compute new in
        roll_all-RollsTo (compute (new size) text) bytes pos
          (compute-IsRolling (new size) text (omega arith))

    moved : rolled.after.window ≡ drop (length bytes) (text ++ bytes)
    moved =
        unfold compute new in
        rolled.moved ∙ ap (λ t. drop (length bytes) (t ++ bytes)) (take_all size text (omega arith))

    last :
        (compute (new size) (drop (length bytes) (text ++ bytes))).hash
        ≡ polynomial (drop (length bytes) (text ++ bytes))
    last =
        compute-polynomial size (drop (length bytes) (text ++ bytes))
          (omega (arith, length-drop (length bytes) (text ++ bytes), length-append text bytes))
