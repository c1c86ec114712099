-- ===== src/Hash.antt =====
-- src/utils/hash.rs: the cyclic polynomial hash of a window of bytes, kept up to date byte by byte.
-- `usize` and `u64` are 64 bits wide. Bytes are numbers below 256.
mod TableLow
mod TableHigh
pub mod Rotate
pub mod Rolling
use TableLow.{table_low}
use TableHigh.{table_high}
use Prim.Native.Nat.{bit_or, bit_xor}
use harmonic.Prelude.{ℕ, ◌+◌, ◌-◌, ◌*◌, ◌/◌, ◌%◌, ◌^◌, ◌==◌, if◌then◌else◌}
use harmonic.Prelude.{Option, none, some, List, [], ◌∷◌, ◌++◌, get_or, take}

abbrev pub buz_hash_table : List ℕ
buz_hash_table = table_low ++ table_high

-- `BUZ_HASH_TABLE[x as usize]`. The table has an entry for every byte.
unfoldable pub table_at : ℕ → ℕ
table_at x = get_or buz_hash_table x 0

pub record BuzHash : Type 0 where
  pub window_size : ℕ
  pub window : List ℕ
  pub hash : ℕ

-- `BuzHash::new`
unfoldable pub new : ℕ → BuzHash
new window_size = record { window_size = window_size; window = []; hash = 0 }

-- `<<` on `u64` drops the high bits.
unfoldable pub rotate : ℕ → ℕ → ℕ
rotate x n =
    let k : ℕ = n % 64 in if k == 0 then x else bit_or ((x * 2 ^ k) % 2 ^ 64) (x / 2 ^ (64 - k))

-- The `map` over the enumerated window. The window is never longer than `window_size`, so the
-- subtraction does not underflow.
unfoldable pub rotated : ℕ → ℕ → List ℕ → List ℕ
rotated window_size n [] = []
rotated window_size n (x ∷ xs) =
    rotate (table_at x) (window_size - (1 + n)) ∷ rotated window_size (n + 1) xs

-- `fold(acc, |acc, value| acc ^ value)`
unfoldable pub fold_xor : ℕ → List ℕ → ℕ
fold_xor acc [] = acc
fold_xor acc (value ∷ values) = fold_xor (bit_xor acc value) values

-- The method `hash`. Like `compute` and `roll` it returns the field `hash` that it leaves.
unfoldable pub hash : BuzHash → BuzHash
unfolding rotated fold_xor
hash h = record h { hash = fold_xor 0 (rotated h.window_size 0 h.window) }

-- `BuzHash::compute`: the window becomes the first `window_size` bytes of the data.
unfoldable pub compute : BuzHash → List ℕ → BuzHash
unfolding hash
compute h bytes = hash (record h { window = take h.window_size bytes })

-- The body of `roll` on the window after `pop_front`. `none` is the panic on an empty window.
unfoldable pub roll_window : BuzHash → List ℕ → ℕ → Option BuzHash
roll_window h [] new_byte = none
roll_window h (bye ∷ rest) new_byte =
    let turned = rotate h.hash 1 in
    let removed = bit_xor turned (rotate (table_at bye) h.window_size) in
    some (record h { window = rest ++ new_byte ∷ []; hash = bit_xor removed (table_at new_byte) })

unfoldable pub roll : BuzHash → ℕ → Option BuzHash
unfolding roll_window
roll h new_byte = roll_window h h.window new_byte
