-- ===== src/Transfer/Literals.antt =====
-- `send_literal_chunks` sends the whole buffer, in order, in messages of bounded size.
use harmonic.Prelude.{ℕ, zero, suc, ◌+◌, ◌-◌, ◌^◌, ◌≤◌, ◌<◌, min, ◌≡◌, refl, sym, ◌∙◌, ap, arith}
use harmonic.Prelude.{none, ◌++◌, append-nil, append_assoc, length}
use harmonic.Prelude.{drop, slice, take-append-drop, drop-drop, drop_all, length-drop}
use harmonic.Prelude.{
  length-take, length-append, Bool-cases, inl, inr, ltb, lt→ltb, ltb→lt, ltb-false, ltb-false_le,
}
use harmonic.Text.{Bytes}
use harmonic.Error.{ok}
use harmonic.Proto.{literal}
use harmonic.Sink.{Sink, and_then, send}
use harmonic.Writer.{BlockCache, instruction_bytes}
use harmonic.Transfer.{usize_add, literal_chunks, send_literal_chunks, max_literal_chunk_size}
use harmonic.Transfer.{delta_request}
use harmonic.Transfer.Runs.{Runs, Runs-pure, Runs-send, Runs-bind, Runs-eq}

pub usize_add_small : (a b : ℕ) → a + b < 2 ^ 64 → usize_add a b ≡ a + b
unfolding usize_add
usize_add_small a b h = omega arith

abbrev chunk_at : Bytes → ℕ → ℕ
chunk_at buffer offset = min max_literal_chunk_size (length buffer - offset)

literal_chunks-more :
    (fuel : ℕ) (buffer : Bytes) (start offset : ℕ) (s : Sink)
    → offset < length buffer
    → literal_chunks (suc fuel) buffer start offset s
      ≡ and_then
          (send
            (delta_request
              (usize_add start offset)
              (literal (slice offset (offset + chunk_at buffer offset) buffer)))
            s)
          (λ _. literal_chunks fuel buffer start (offset + chunk_at buffer offset))
unfolding literal_chunks
literal_chunks-more fuel buffer start offset s h = rw (lt→ltb offset (length buffer) h)

literal_chunks-done :
    (fuel : ℕ) (buffer : Bytes) (start offset : ℕ) (s : Sink)
    → length buffer ≤ offset
    → literal_chunks (suc fuel) buffer start offset s ≡ (ok tt, s)
unfolding literal_chunks
literal_chunks-done fuel buffer start offset s h = rw (ltb-false offset (length buffer) h)

slice-step :
    (buffer : Bytes) (offset n : ℕ)
    → slice offset (offset + n) buffer ++ drop (offset + n) buffer ≡ drop offset buffer
slice-step buffer offset n =
    let e : offset + n - offset ≡ n = omega arith in
    let c : offset + n ≡ n + offset = omega arith in
    rw (e, c, ← drop-drop offset n buffer) (take-append-drop n (drop offset buffer))

module _ (cache : BlockCache) where
  literal_chunks-Runs :
      (fuel : ℕ) (buffer : Bytes) (start offset : ℕ) (s : Sink) (file : Bytes)
      → length buffer - offset < fuel
      → offset ≤ length buffer
      → start + length buffer < 2 ^ 64
      → length file ≡ start + offset
      → s.closes ≡ none
      → Runs cache s file
          (file ++ drop offset buffer)
          tt
          (literal_chunks fuel buffer start offset s)
  unfolding literal_chunks instruction_bytes
  literal_chunks-Runs zero buffer start offset s file fuel_left within fits place open_channel =
      absurd (omega arith)
  literal_chunks-Runs (suc fuel) buffer start offset s file fuel_left within fits place
        open_channel =
      elim (Bool-cases (ltb offset (length buffer))) [
        | inr done ↦
            let over : length buffer ≤ offset = ltb-false_le offset (length buffer) done in
            Runs-eq cache (literal_chunks-done fuel buffer start offset s over)
              (sym (ap (λ t. file ++ t) (drop_all offset buffer over) ∙ append-nil file))
              (Runs-pure cache s file tt open_channel)
        | inl more ↦
            let below : offset < length buffer = ltb→lt offset (length buffer) more in
            let n = chunk_at buffer offset in
            let chunk = slice offset (offset + n) buffer in
            let size : length chunk ≡ n = omega (
              arith,
              length-take (offset + n - offset) (drop offset buffer),
              length-drop offset buffer,
            ) in
            Runs-eq cache (literal_chunks-more fuel buffer start offset s below)
              (append_assoc file chunk (drop (offset + n) buffer)
                ∙ ap (λ t. file ++ t) (slice-step buffer offset n))
              (Runs-bind cache s file (file ++ chunk) ((file ++ chunk) ++ drop (offset + n) buffer)
                tt tt (send (delta_request (usize_add start offset) (literal chunk)) s)
                (λ _. literal_chunks fuel buffer start (offset + n))
                (Runs-send cache s file chunk (usize_add start offset) (literal chunk) open_channel
                  (usize_add_small start offset (omega arith) ∙ sym place) refl)
                (λ s' open'.
                  literal_chunks-Runs fuel buffer start (offset + n) s' (file ++ chunk)
                    (omega arith) (omega arith) fits (omega (arith, length-append file chunk))
                    open'))
      ]

  pub send_literal_chunks-Runs :
      (buffer : Bytes) (start : ℕ) (s : Sink) (file : Bytes)
      → start + length buffer < 2 ^ 64
      → length file ≡ start
      → s.closes ≡ none
      → Runs cache s file (file ++ buffer) tt (send_literal_chunks buffer start s)
  unfolding send_literal_chunks
  send_literal_chunks-Runs buffer start s file fits place open_channel =
      literal_chunks-Runs (suc (length buffer)) buffer start 0 s file (omega arith) (omega arith)
        fits (omega arith) open_channel
