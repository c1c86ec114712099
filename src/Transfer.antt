-- ===== src/Transfer.antt =====
-- src/sync/transfer.rs: the sender of a file's deltas. Indices are `usize` or `u64`, both of 64
-- bits, and wrap as a release build does.
pub mod BlockMap
pub mod Endless
pub mod Literals
pub mod Runs
pub mod Sizes
pub mod Tracks
pub mod Rounds
pub mod Rebuild
use harmonic.Prelude.{ℕ, zero, suc, ◌+◌, ◌-◌, ◌*◌, ◌%◌, ◌^◌, min, Bool, true, false, ltb, leb}
use harmonic.Prelude.{if◌then◌else◌, Option, none, some, List, [], ◌∷◌, ◌++◌}
use harmonic.Prelude.{length, get_elem?, get_or, slice}
use harmonic.Text.{Bytes}
use harmonic.Path.{FilePath}
use harmonic.Error.{Outcome, ok, err, panicked, unfinished}
use harmonic.Proto.{BlockSignatures, Delta, Instruction, block_index, literal, delta, complete}
use harmonic.Proto.{SyncRequest}
use harmonic.Io.{Io, from_io}
use harmonic.Sink.{lift, Sink, Sends, ◌>>=◌, ◌>>◌, and_then, pure, raise, panic, send}
use harmonic.Hash.{BuzHash, new, compute, roll}
use harmonic.Transfer.BlockMap.{WeakMap, block_map, find_block}

-- 4 MB less 64 KB.
abbrev pub max_literal_chunk_size : ℕ
max_literal_chunk_size = 4 * 1024 * 1024 - 64 * 1024

-- `+` and `- 1` on `usize`.
unfoldable pub usize_add : ℕ → ℕ → ℕ
usize_add a b = (a + b) % 2 ^ 64

unfoldable pub usize_pred : ℕ → ℕ
usize_pred a = (a + 2 ^ 64 - 1) % 2 ^ 64

abbrev pub is_empty : Bytes → Bool
is_empty [] = true
is_empty (b ∷ bytes) = false

abbrev pub delta_request : ℕ → Instruction → SyncRequest
delta_request index instruction = record {
  payload = some (delta (record { index = index; instruction = some instruction }));
}

-- `send_literal_chunks`: the `while` loop, with fuel. Each round takes at least one byte.
unfoldable pub literal_chunks : ℕ → Bytes → ℕ → ℕ → Sends (Unit {0})
literal_chunks zero buffer start offset s = (unfinished, s)
literal_chunks (suc fuel) buffer start offset s =
    let chunk_size = min max_literal_chunk_size (length buffer - offset) in
    let chunk = slice offset (offset + chunk_size) buffer in
    let more =
      and_then (send (delta_request (usize_add start offset) (literal chunk)) s)
        (λ _. literal_chunks fuel buffer start (offset + chunk_size)) in
    if ltb offset (length buffer) then more else (ok tt, s)

unfoldable pub send_literal_chunks : Bytes → ℕ → Sends (Unit {0})
send_literal_chunks buffer start = literal_chunks (suc (length buffer)) buffer start 0

-- The variables of the loop of `send_delta_from_block_signatures`.
pub record Progress : Type 0 where
  pub i : ℕ
  pub buffer : Bytes
  pub buffer_start_index : ℕ
  pub buz_hasher : BuzHash

-- `&data[i..i + block_size]` behind the test `i + block_size <= data.len()`: not taken, a panic as
-- the sum has wrapped, or a block.
pub data Window : Type 0 where
  short reversed : Window
  block : Bytes → Window

-- What the loop finds at `i`.
pub data Probe : Type 0 where
  fault miss : Probe
  hit : ℕ → Probe

-- `if !buffer.is_empty()` in front of a block and at the end.
unfoldable pub flush : Progress → Sends (Unit {0})
flush p = if is_empty p.buffer then pure tt else send_literal_chunks p.buffer p.buffer_start_index

-- A full buffer is sent at once.
unfoldable pub spill : Progress → Sends Progress
spill p =
    if leb max_literal_chunk_size (length p.buffer)
    then (do
      send_literal_chunks p.buffer p.buffer_start_index
      pure (record p { buffer = []; buffer_start_index = p.i }))
    else pure p

module _ (block_size : ℕ) (text : Bytes) where
  unfoldable pub window_at : ℕ → Window
  window_at i =
      let stop = usize_add i block_size in
      if leb stop (length text)
      then (if leb i stop then block (slice i stop text) else reversed)
      else short

  -- The hasher starts again behind a block.
  unfoldable pub restart : Progress → Sends Progress
  restart p = elim (window_at p.i) [
    | short ↦ pure p
    | reversed ↦ panic
    | block bytes ↦ pure (record p { buz_hasher = compute p.buz_hasher bytes })
  ]

  -- The branch of a block that the peer has.
  unfoldable pub take_block : ℕ → Progress → Sends Progress
  take_block index p = do
    flush p
    send (delta_request p.i (block_index index))
    restart (record p { buffer = []; i = usize_add p.i block_size })

  -- `if i + block_size <= data.len()`: the hasher moves on by a byte.
  unfoldable pub advance : Progress → Sends Progress
  advance p =
      if leb (usize_add p.i block_size) (length text)
      then (elim (get_elem? text (usize_pred (usize_add p.i block_size))) [
        | none ↦ panic
        | some new_byte ↦ elim (roll p.buz_hasher new_byte) [
          | none ↦ panic
          | some hasher ↦ pure (record p { buz_hasher = hasher })
        ]
      ])
      else pure p

  -- The literal branch up to the send of a full buffer: `data[i]` joins the buffer.
  unfoldable pub push_byte : Progress → Progress
  push_byte p = record p {
    buffer_start_index = if is_empty p.buffer then p.i else p.buffer_start_index;
    buffer = p.buffer ++ get_or text p.i 0 ∷ [];
    i = usize_add p.i 1;
  }

  -- The branch of a literal byte.
  unfoldable pub take_byte : Progress → Sends Progress
  take_byte p = do p' ← spill (push_byte p); advance p'

  unfoldable pub start : Progress
  start = record {
    i = 0;
    buffer = [];
    buffer_start_index = 0;
    buz_hasher =
        compute (new block_size)
          (if leb (length text) block_size then text else slice 0 block_size text);
  }

module _ (blake3 : Bytes → Bytes) (map : WeakMap) (block_size : ℕ) (text : Bytes) where
  unfoldable pub probe : Progress → Probe
  probe p = elim (window_at block_size text p.i) [
    | short ↦ miss
    | reversed ↦ fault
    | block bytes ↦ elim (find_block map p.buz_hasher.hash (blake3 bytes)) [
      | none ↦ miss
      | some index ↦ hit index
    ]
  ]

  -- The `loop`, with fuel. It is left by the `break` at the end of the data.
  unfoldable pub loop : ℕ → Progress → Sends Progress
  loop zero p s = (unfinished, s)
  loop (suc fuel) p s = elim (probe p) [
    | fault ↦ (panicked, s)
    | hit index ↦ and_then (take_block block_size text index p s) (loop fuel)
    | miss ↦
        let more = and_then (take_byte block_size text p s) (loop fuel) in
        if leb (length text) p.i then (ok p, s) else more
  ]

  -- All after the file has been read.
  unfoldable pub send_deltas : Sends (Unit {0})
  send_deltas = do
    p ← loop (suc (length text)) (start block_size text)
    flush p
    send (record { payload = some (complete true) })

-- `send_delta_from_block_signatures`. Reading a file is the file system's.
unfoldable pub send_delta_from_block_signatures :
    (Bytes → Bytes) → (FilePath → Io Bytes) → FilePath → BlockSignatures → Sends (Unit {0})
send_delta_from_block_signatures blake3 read file_path block_signatures = do
  text ← lift (from_io (read file_path))
  send_deltas blake3 (block_map block_signatures.blocks) block_signatures.block_size text
