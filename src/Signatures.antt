-- ===== src/Signatures.antt =====
-- `generate_blocks_signatures` of src/sync/state.rs.
pub mod Chunks
pub mod Cache
use harmonic.Prelude.{ℕ, zero, suc, ◌+◌, ◌==◌, if◌then◌else◌, List, [], ◌∷◌, length, take, drop}
use harmonic.Text.{Bytes}
use harmonic.Path.{FilePath}
use harmonic.Error.{Outcome, ok, err, io, panicked, ◌>>=◌}
use harmonic.Io.{Io, done, not_found, failed}
use harmonic.Config.{Config}
use harmonic.Absolute.{get_absolute_path}
use harmonic.Hash.{BuzHash, new, compute}
use harmonic.Proto.{BlockSignature, BlockSignatures}
use harmonic.Writer.{BlockCache}

-- `data.chunks(size)` for a positive size, on fuel: each chunk takes at least one byte.
unfoldable pub chunks_from : ℕ → ℕ → Bytes → List Bytes
chunks_from zero size text = []
chunks_from (suc fuel) size [] = []
chunks_from (suc fuel) size (b ∷ text) =
    take size (b ∷ text) ∷ chunks_from fuel size (drop size (b ∷ text))

unfoldable pub chunks : ℕ → Bytes → List Bytes
chunks size text = chunks_from (length text) size text

-- The `for` over the chunks: the signatures that it pushes. The chunks themselves are the cache.
unfoldable pub sign_blocks : (Bytes → Bytes) → BuzHash → List Bytes → List BlockSignature
sign_blocks blake3 buz_hasher [] = []
sign_blocks blake3 buz_hasher (c ∷ cs) =
    let hasher = compute buz_hasher c in
    record { weak_checksum = hasher.hash; strong_checksum = blake3 c }
    ∷ sign_blocks blake3 hasher cs

-- All after the file has been read. `chunks(0)` panics.
unfoldable pub sign_file : (Bytes → Bytes) → ℕ → Bytes → Outcome (BlockSignatures × BlockCache)
sign_file blake3 block_size text =
    if block_size == 0
    then panicked
    else ok (
      record {
        block_size = block_size;
        blocks = sign_blocks blake3 (new block_size) (chunks block_size text);
      },
      record { blocks = chunks block_size text },
    )

-- A missing file reads as an empty one.
abbrev pub or_empty : Io Bytes → Outcome Bytes
or_empty (done text) = ok text
or_empty not_found = ok []
or_empty (failed message) = err (io message)

unfoldable pub generate_blocks_signatures :
    (FilePath → FilePath)
    → (Bytes → Bytes)
    → (FilePath → Io Bytes)
    → FilePath
    → Config
    → Outcome (BlockSignatures × BlockCache)
generate_blocks_signatures clean blake3 read file_path config = do
  abs_path ← get_absolute_path clean file_path config.sync_path
  text ← or_empty (read abs_path)
  sign_file blake3 config.block_size text
