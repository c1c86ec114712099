-- ===== src/Resync.antt =====
-- The two sides of a transfer together: the receiver signs its old file
-- (`generate_blocks_signatures` in src/sync/state.rs), the sender answers with deltas
-- (src/sync/transfer.rs), and the receiver applies them (src/utils/writer.rs).
use harmonic.Prelude.{ℕ, ◌+◌, ◌^◌, ◌≤◌, ◌<◌, ◌≡◌, none, length, arith}
use harmonic.Text.{Bytes}
use harmonic.Path.{FilePath}
use harmonic.Error.{ok}
use harmonic.Io.{Io, done}
use harmonic.Sink.{Sink}
use harmonic.Proto.{BlockSignatures}
use harmonic.Hash.{new}
use harmonic.Writer.{BlockCache}
use harmonic.Transfer.{send_delta_from_block_signatures}
use harmonic.Transfer.BlockMap.{block_map}
use harmonic.Transfer.Rebuild.{Rebuilds, send_deltas-Rebuilds}
use harmonic.Signatures.{chunks, sign_blocks, sign_file}
use harmonic.Signatures.Cache.{NoCollision, sign_blocks-Knows}

-- For a positive block size the receiver's signatures and cache exist. If the sender reads
-- `text` under the path, the sum of its length and the block size fits 64 bits, the receiver has at
-- most 2 ^ 32 blocks, none of them has the strong checksum of a different block of `text`, and the
-- channel stays open, then the sender returns without an error, and has sent deltas that turn the
-- receiver's empty temporary file into exactly `text`, followed by `complete`.
pub sign-send-write :
    (blake3 : Bytes → Bytes) (read : FilePath → Io Bytes) (file_path : FilePath) (block_size : ℕ)
    (old text : Bytes) (s : Sink)
    → 0 < block_size
    → length text + block_size < 2 ^ 64
    → length (chunks block_size old) ≤ 2 ^ 32
    → NoCollision blake3 block_size text (chunks block_size old)
    → read file_path ≡ done text
    → s.closes ≡ none
    → (signed : BlockSignatures × BlockCache) × (sign_file blake3 block_size old ≡ ok signed)
      × Rebuilds signed.1 text s (send_delta_from_block_signatures blake3 read file_path signed.0 s)
unfolding sign_file send_delta_from_block_signatures
sign-send-write blake3 read file_path block_size old text s pos fits few distinct reads
      open_channel =
    (
      (
        record {
          block_size = block_size;
          blocks = sign_blocks blake3 (new block_size) (chunks block_size old);
        },
        record { blocks = chunks block_size old },
      ),
      ground arith,
      rw (reads, send_delta_from_block_signatures)
          (send_deltas-Rebuilds (record { blocks = chunks block_size old }) blake3
            (block_map (sign_blocks blake3 (new block_size) (chunks block_size old))) block_size
            text pos fits
            (sign_blocks-Knows blake3 (new block_size) block_size text (chunks block_size old) few
              distinct)
            s open_channel),
    )
