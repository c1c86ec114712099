-- ===== src/Transfer/Sizes.antt =====
-- The size of the messages of src/sync/transfer.rs: a literal never exceeds MAX_LITERAL_CHUNK_SIZE.
use harmonic.Prelude.{ℕ, zero, suc, ◌+◌, ◌-◌, ◌≤◌, min, true, ltb, leb, if◌then◌else◌}
use harmonic.Prelude.{Option, none, some, List, [], ◌∷◌, ◌++◌, length, slice, drop}
use harmonic.Prelude.{length-take, get_elem?, Option-cases, Bool-cases, inl, inr, arith}
use harmonic.Text.{Bytes}
use harmonic.Error.{Outcome, ok, err, panicked, unfinished}
use harmonic.Hash.{compute, roll}
use harmonic.Proto.{Instruction, block_index, literal, Payload, file_action, signatures, delta}
use harmonic.Proto.{complete, SyncRequest}
use harmonic.Sink.{Sink, Sends, and_then, send}
use harmonic.Transfer.BlockMap.{WeakMap}
use harmonic.Transfer.{
  max_literal_chunk_size, usize_add, usize_pred, is_empty, delta_request, literal_chunks,
  send_literal_chunks, Progress, Window, short, reversed, block, Probe, fault, miss, hit, flush,
  spill, window_at, restart, take_block, advance, push_byte, take_byte, start, probe, loop,
  send_deltas,
}

abbrev pub InstructionFits : Option Instruction → Type 0
InstructionFits none = Unit
InstructionFits (some (block_index k)) = Unit
InstructionFits (some (literal bytes)) = length bytes ≤ max_literal_chunk_size

abbrev pub PayloadFits : Option Payload → Type 0
PayloadFits none = Unit
PayloadFits (some (file_action action)) = Unit
PayloadFits (some (signatures block_signatures)) = Unit
PayloadFits (some (delta d)) = InstructionFits d.instruction
PayloadFits (some (complete done)) = Unit

-- No message has a literal above the limit.
abbrev pub Fits : List SyncRequest → Type 0
Fits [] = Unit
Fits (r ∷ requests) = PayloadFits r.payload × Fits requests

Fits-append :
    (requests : List SyncRequest) (r : SyncRequest)
    → Fits requests
    → PayloadFits r.payload
    → Fits (requests ++ r ∷ [])
Fits-append [] r h k = (k, tt)
Fits-append (q ∷ requests) r h k = (h.0, Fits-append requests r h.1 k)

send-Fits :
    (r : SyncRequest) (s : Sink) → PayloadFits r.payload → Fits s.sent → Fits (send r s).1.sent
unfolding send
send-Fits r s k h = elim (Option-cases s.closes) [
  | inl e ↦ rw (e, send) (Fits-append s.sent r h k)
  | inr (zero, e) ↦ rw (e, send) h
  | inr (suc n, e) ↦ rw (e, send) (Fits-append s.sent r h k)
]

and_then-Fits :
    {A B : Type 0} (run : Outcome A × Sink) (f : A → Sends B)
    → Fits run.1.sent
    → ((a : A) (s : Sink) → Fits s.sent → Fits (f a s).1.sent)
    → Fits (and_then run f).1.sent
and_then-Fits (ok a, s) f h k = k a s h
and_then-Fits (err e, s) f h k = h
and_then-Fits (panicked, s) f h k = h
and_then-Fits (unfinished, s) f h k = h

chunk_fits :
    (offset size : ℕ) (bytes : Bytes)
    → size ≤ max_literal_chunk_size
    → length (slice offset (offset + size) bytes) ≤ max_literal_chunk_size
chunk_fits offset size bytes h =
    omega (arith, length-take (offset + size - offset) (drop offset bytes))

literal_chunks-Fits :
    (fuel : ℕ) (buffer : Bytes) (start offset : ℕ) (s : Sink)
    → Fits s.sent
    → Fits (literal_chunks fuel buffer start offset s).1.sent
unfolding literal_chunks
literal_chunks-Fits zero buffer start offset s h = h
literal_chunks-Fits (suc fuel) buffer start offset s h =
    elim (Bool-cases (ltb offset (length buffer))) [
      | inr e ↦ rw e h
      | inl e ↦
          let size = min max_literal_chunk_size (length buffer - offset) in
          let request =
            delta_request (usize_add start offset)
              (literal (slice offset (offset + size) buffer)) in
          rw e (
            and_then-Fits (send request s) _
              (send-Fits request s (chunk_fits offset size buffer (omega arith)) h)
              (λ a s' h'. literal_chunks-Fits fuel buffer start (offset + size) s' h'))
    ]

flush-Fits : (p : Progress) (s : Sink) → Fits s.sent → Fits (flush p s).1.sent
unfolding flush send_literal_chunks
flush-Fits p s h = elim (Bool-cases (is_empty p.buffer)) [
  | inl e ↦ rw e h
  | inr e ↦ rw e (literal_chunks-Fits (suc (length p.buffer)) p.buffer p.buffer_start_index 0 s h)
]

spill-Fits : (p : Progress) (s : Sink) → Fits s.sent → Fits (spill p s).1.sent
unfolding spill send_literal_chunks
spill-Fits p s h = elim (Bool-cases (leb max_literal_chunk_size (length p.buffer))) [
  | inr e ↦ rw e h
  | inl e ↦ rw e (
      and_then-Fits _ _
        (literal_chunks-Fits (suc (length p.buffer)) p.buffer p.buffer_start_index 0 s h)
        (λ a s' h'. h'))
]

module _ (block_size : ℕ) (text : Bytes) where
  restart-Fits : (p : Progress) (s : Sink) → Fits s.sent → Fits (restart block_size text p s).1.sent
  unfolding restart
  restart-Fits p s h = on_window (window_at block_size text p.i)
    where
      on_window :
          (w : Window)
          → Fits
              ((elim w as (λ _. Sends Progress) [
                | short ↦ λ s'. (ok p, s')
                | reversed ↦ λ s'. (panicked, s')
                | block bytes ↦
                    λ s'. (ok (record p { buz_hasher = compute p.buz_hasher bytes }), s')
              ])
                s).1.sent
      on_window short = h
      on_window reversed = h
      on_window (block bytes) = h

  take_block-Fits :
      (index : ℕ) (p : Progress) (s : Sink)
      → Fits s.sent
      → Fits (take_block block_size text index p s).1.sent
  unfolding take_block
  take_block-Fits index p s h = and_then-Fits (flush p s) _ (flush-Fits p s h) (λ a s' h'.
      and_then-Fits (send (delta_request p.i (block_index index)) s') _
        (send-Fits (delta_request p.i (block_index index)) s' tt h')
        (λ b s'' h''. restart-Fits _ s'' h''))

  advance-Fits : (p : Progress) (s : Sink) → Fits s.sent → Fits (advance block_size text p s).1.sent
  unfolding advance
  advance-Fits p s h = elim (Bool-cases (leb (usize_add p.i block_size) (length text))) [
    | inr e ↦ rw (e, advance) h
    | inl e ↦ elim (Option-cases (get_elem? text (usize_pred (usize_add p.i block_size)))) [
      | inl no_byte ↦ rw (e, no_byte, advance) h
      | inr (new_byte, found) ↦ elim (Option-cases (roll p.buz_hasher new_byte)) [
        | inl empty ↦ rw (e, found, advance) (rw empty h)
        | inr (hasher, rolled) ↦ rw (e, found, advance) (rw rolled h)
      ]
    ]
  ]

  take_byte-Fits :
      (p : Progress) (s : Sink) → Fits s.sent → Fits (take_byte block_size text p s).1.sent
  unfolding take_byte
  take_byte-Fits p s h =
      and_then-Fits (spill (push_byte block_size text p) s) _
        (spill-Fits (push_byte block_size text p) s h) (λ p' s' h'. advance-Fits p' s' h')

module _ (blake3 : Bytes → Bytes) (map : WeakMap) (block_size : ℕ) (text : Bytes) where
  loop-Fits :
      (fuel : ℕ) (p : Progress) (s : Sink)
      → Fits s.sent
      → Fits (loop blake3 map block_size text fuel p s).1.sent
  unfolding loop
  loop-Fits zero p s h = h
  loop-Fits (suc fuel) p s h =
      on_probe (λ p' s' h'. loop-Fits fuel p' s' h') (probe blake3 map block_size text p)
    where
      on_probe :
          ((p' : Progress) (s' : Sink)
            → Fits s'.sent
            → Fits (loop blake3 map block_size text fuel p' s').1.sent)
          → (found : Probe)
          → Fits
              (elim found as (λ _. Outcome Progress × Sink) [
                | fault ↦ (panicked, s)
                | hit index ↦
                    and_then
                      (take_block block_size text index p s)
                      (loop blake3 map block_size text fuel)
                | miss ↦
                    if leb (length text) p.i
                    then (ok p, s)
                    else and_then
                        (take_byte block_size text p s)
                        (loop blake3 map block_size text fuel)
              ]).1.sent
      on_probe later fault = h
      on_probe later (hit index) =
          and_then-Fits (take_block block_size text index p s) _
            (take_block-Fits block_size text index p s h) later
      on_probe later miss = elim (Bool-cases (leb (length text) p.i)) [
        | inl e ↦ rw e h
        | inr e ↦ rw e (
            and_then-Fits (take_byte block_size text p s) _ (take_byte-Fits block_size text p s h)
              later)
      ]

-- Whatever the peer's checksums and block size, the file and the fate of the channel: a sender that
-- starts with messages within the limit on literals, of 4 MB less 64 KB, ends with such messages,
-- also where it fails or panics.
pub send_deltas-Fits :
    (blake3 : Bytes → Bytes) (map : WeakMap) (block_size : ℕ) (text : Bytes) (s : Sink)
    → Fits s.sent
    → Fits (send_deltas blake3 map block_size text s).1.sent
unfolding send_deltas
send_deltas-Fits blake3 map block_size text s h =
    and_then-Fits (loop blake3 map block_size text (suc (length text)) (start block_size text) s) _
      (loop-Fits blake3 map block_size text (suc (length text)) (start block_size text) s h)
      (λ p s' h'.
        and_then-Fits (flush p s') _ (flush-Fits p s' h')
          (λ a s'' h''. send-Fits (record { payload = some (complete true) }) s'' tt h''))
