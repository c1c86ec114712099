-- ===== src/Transfer/Endless.antt =====
-- The loop of `send_delta_from_block_signatures` in src/sync/transfer.rs where the peer asks for
-- blocks of no bytes.
use harmonic.Prelude.{
  ℕ, zero, suc, length, le→leb, arith, replicate, none, some, List, [], ◌∷◌, ◌++◌, get_elem?,
  append_assoc, append-nil, ◌≡◌, refl, sym, ap, ◌∙◌,
}
use harmonic.Text.{Bytes}
use harmonic.Error.{ok, unfinished}
use harmonic.Proto.{BlockSignature, block_index}
use harmonic.Sink.{Sink}
use harmonic.Hash.{new, compute, hash, rotated, fold_xor}
use harmonic.Transfer.{
  Progress, hit, block, delta_request, flush, window_at, restart, take_block, usize_add, start,
  probe, loop,
}
use harmonic.Transfer.BlockMap.{WeakMap, block_map, find_block, find_block_complete}
use harmonic.Transfer.Runs.{send_open}

-- At the start of the file, with an empty window.
abbrev idle : Progress
idle = record {
  i = 0;
  buffer = [];
  buffer_start_index = 0;
  buz_hasher = record { window_size = 0; window = []; hash = 0 };
}

start-idle : (text : Bytes) → start 0 text ≡ idle
unfolding start new compute hash rotated fold_xor
start-idle text = refl

window_at-idle : (text : Bytes) → window_at 0 text 0 ≡ block []
unfolding window_at usize_add
window_at-idle text = rw (le→leb 0 (length text) (omega arith)) refl

module _ (blake3 : Bytes → Bytes) (map : WeakMap) (text : Bytes) (k : ℕ)
    (found : find_block map 0 (blake3 []) ≡ some k) where
  probe-idle : probe blake3 map 0 text idle ≡ hit k
  unfolding probe
  probe-idle = rw (window_at-idle text, probe) (rw found refl)

  take_block-idle :
      (sink : Sink)
      → sink.closes ≡ none
      → take_block 0 text k idle sink
        ≡ (ok idle, record sink { sent = sink.sent ++ delta_request 0 (block_index k) ∷ [] })
  unfolding take_block flush restart usize_add compute hash rotated fold_xor
  take_block-idle sink open_channel =
      rw (send_open (delta_request 0 (block_index k)) sink open_channel)
        (rw (window_at-idle text, restart) refl)

  loop-idle :
      (n : ℕ) (sink : Sink)
      → sink.closes ≡ none
      → loop blake3 map 0 text n idle sink ≡ (
        unfinished,
        record sink { sent = sink.sent ++ replicate n (delta_request 0 (block_index k)) },
      )
  unfolding loop
  loop-idle zero sink open_channel =
      ap (λ l. (unfinished, record sink { sent = l })) (sym (append-nil sink.sent))
  loop-idle (suc n) sink open_channel =
      rw (probe-idle, loop)
        (rw (take_block-idle sink open_channel) (
          loop-idle n _ open_channel
          ∙ ap (λ l. (unfinished, record sink { sent = l }))
              (append_assoc sink.sent (delta_request 0 (block_index k) ∷ [])
                (replicate n (delta_request 0 (block_index k))))))

-- Let a peer give the block size 0, and list a block with the weak checksum 0 and the strong
-- checksum of no bytes, of 32 bytes. Whatever the file and however long it runs, the sender's loop
-- does not end, and while the channel is open each round sends one more reference to that block, or
-- to one with the same checksums.
pub loop-endless :
    (blake3 : Bytes → Bytes) (text : Bytes) (blocks : List BlockSignature) (place : ℕ)
    (b : BlockSignature) (sink : Sink)
    → get_elem? blocks place ≡ some b
    → b.weak_checksum ≡ 0
    → b.strong_checksum ≡ blake3 []
    → length b.strong_checksum ≡ 32
    → sink.closes ≡ none
    → (k : ℕ) × ((n : ℕ)
        → loop blake3 (block_map blocks) 0 text n (start 0 text) sink ≡ (
          unfinished,
          record sink { sent = sink.sent ++ replicate n (delta_request 0 (block_index k)) },
        ))
loop-endless blake3 text blocks place b sink at weak strong full open_channel =
    let (k, found) = find_block_complete blocks place b at full in
    let shown =
      sym (ap (find_block (block_map blocks) 0) strong)
      ∙ sym (ap (λ w. find_block (block_map blocks) w b.strong_checksum) weak)
      ∙ found in
    (
      k,
      λ n.
          rw (start-idle text)
            (loop-idle blake3 (block_map blocks) text k shown n sink open_channel),
    )
