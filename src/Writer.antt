-- ===== src/Writer.antt =====
-- src/utils/writer.rs: the receiver of a file's deltas.
pub mod Append
pub mod Temporary
pub mod Target
use harmonic.Prelude.{ℕ, zero, suc, ◌+◌, ◌-◌, Bool, true, false, if◌then◌else◌}
use harmonic.Prelude.{
  Option, none, some, List, [], ◌∷◌, ◌++◌, length, get_elem?, take, drop, replicate,
}
use harmonic.Text.{Bytes}
use harmonic.Error.{Outcome, ok, err, io, panicked, ◌>>=◌}
use harmonic.Proto.{Delta, Instruction, block_index, literal}

-- `BlockCache` of src/sync/state.rs.
pub record BlockCache : Type 0 where
  pub blocks : List Bytes

-- `seek` and `write_all`: a gap in front of the bytes reads as zeros, and an empty write does
-- nothing.
unfoldable pub write_at : ℕ → Bytes → Bytes → Bytes
write_at index [] file = file
write_at index (b ∷ bytes) file =
    take index (file ++ replicate (index - length file) 0)
    ++ (b ∷ bytes)
    ++ drop (index + length (b ∷ bytes)) file

-- The `match` on an instruction. Indexing past the cache is a panic.
unfoldable pub instruction_bytes : BlockCache → Option Instruction → Outcome Bytes
instruction_bytes cache none = err (io [])
instruction_bytes cache (some (literal bytes)) = ok bytes
instruction_bytes cache (some (block_index index)) = elim (get_elem? cache.blocks index) [
  | none ↦ panicked
  | some bytes ↦ ok bytes
]

-- One round of the `while let`.
unfoldable pub write_delta : BlockCache → Bytes → Delta → Outcome Bytes
write_delta cache file d = do
  bytes ← instruction_bytes cache d.instruction
  ok (write_at d.index bytes file)

-- The `while let` over the deltas that come through the channel.
unfoldable pub write_deltas : BlockCache → Bytes → List Delta → Outcome Bytes
write_deltas cache file [] = ok file
write_deltas cache file (d ∷ deltas) = do
  file' ← write_delta cache file d
  write_deltas cache file' deltas
