-- ===== src/Transfer/Rounds.antt =====
-- One round of the loop of `send_delta_from_block_signatures`: what is sent, and where it goes on.
use mathlib.Core.Path.{subst}
use harmonic.Prelude.{ℕ, suc, ◌+◌, ◌^◌, ◌≤◌, ◌<◌, ◌≡◌, refl, sym, ◌∙◌, ap, arith}
use harmonic.Prelude.{none, some, [], ◌∷◌, ◌++◌, append-nil, append_assoc, length, slice, get_or}
use harmonic.Prelude.{take, take-suc, take-add, length-take, length-append}
use harmonic.Prelude.{leb, Bool-cases, inl, inr}
use harmonic.Prelude.{◌⊎◌, true, false}
use harmonic.Hash.{BuzHash}
use harmonic.Text.{Bytes}
use harmonic.Error.{Outcome, ok}
use harmonic.Proto.{block_index}
use harmonic.Sink.{Sink, and_then}
use harmonic.Writer.{BlockCache, instruction_bytes}
use harmonic.Transfer.{usize_add, Progress}
use harmonic.Transfer.{flush, spill, push_byte, restart, take_block, advance}
use harmonic.Transfer.{take_byte, max_literal_chunk_size, is_empty}
use harmonic.Transfer.Runs.{Runs, Runs-pure, Runs-send, Runs-bind, Runs-eq}
use harmonic.Transfer.Literals.{usize_add_small, send_literal_chunks-Runs}
use harmonic.Transfer.Tracks.{Tracks, slice_block, restart-Tracks, advance-Tracks}

module _ (block_size : ℕ) (text : Bytes) where
  -- The receiver's file and the buffer together are the text up to `i`.
  pub record At (file : Bytes) (p : Progress) : Type 0 where
    pub within : p.i ≤ length text
    pub so_far : file ++ p.buffer ≡ take p.i text
    pub starts : 0 < length p.buffer → p.buffer_start_index ≡ length file
    pub tracks : Tracks block_size text p.i p.buz_hasher

is_empty-cases :
    (b : Bytes) → ((b ≡ []) × (is_empty b ≡ true)) ⊎ ((0 < length b) × (is_empty b ≡ false))
is_empty-cases [] = inl (refl, refl)
is_empty-cases (x ∷ b) = inr (omega arith, refl)

module _ (cache : BlockCache) (block_size : ℕ) (text : Bytes) (pos : 0 < block_size)
    (fits : length text + block_size < 2 ^ 64) where
  At-length :
      (file : Bytes) (p : Progress)
      → At block_size text file p
      → length file + length p.buffer ≡ p.i
  At-length file p at =
      omega
        (arith, length-append file p.buffer, ap length at.so_far, length-take p.i text, at.within)

  pub flush-Runs :
      (file : Bytes) (p : Progress) (s : Sink)
      → At block_size text file p
      → s.closes ≡ none
      → Runs cache s file (take p.i text) tt (flush p s)
  unfolding flush
  flush-Runs file p s at open_channel =
      let total = At-length file p at in
      elim (is_empty-cases p.buffer) [
        | inl (e, test) ↦
            Runs-eq cache (rw test)
              (sym (append-nil file) ∙ ap (λ t. file ++ t) (sym e) ∙ at.so_far)
              (Runs-pure cache s file tt open_channel)
        | inr (h, test) ↦
            let begin = at.starts h in
            Runs-eq cache (rw test) at.so_far (
              send_literal_chunks-Runs cache p.buffer p.buffer_start_index s file
                (omega (arith, at.within)) (sym begin) open_channel)
      ]

  -- What a round of the loop does: it goes on from a later place.
  pub record Round (s : Sink) (file : Bytes) (i : ℕ) (run : Outcome Progress × Sink) : Type 0 where
    pub after : Progress
    pub out : Bytes
    pub runs : Runs cache s file out after run
    pub at : At block_size text out after
    pub later : i < after.i

  block-so_far : (i : ℕ) → take i text ++ slice i (i + block_size) text ≡ take (i + block_size) text
  block-so_far i =
      ap (λ t. take i text ++ t) (slice_block i block_size text) ∙ sym (take-add i block_size text)

  pub take_block-Round :
      (index : ℕ) (file : Bytes) (p : Progress) (s : Sink)
      → At block_size text file p
      → s.closes ≡ none
      → p.i + block_size ≤ length text
      → instruction_bytes cache (some (block_index index)) ≡ ok (slice p.i (p.i + block_size) text)
      → Round s file p.i (take_block block_size text index p s)
  unfolding take_block
  take_block-Round index file p s at open_channel whole reads = record {
    after = after;
    out = out;
    runs =
        Runs-bind cache s file (take p.i text) out tt after _ _
          (flush-Runs file p s at open_channel)
          (λ s1 open1.
            Runs-bind cache s1 (take p.i text) out out tt after _ _
              (Runs-send cache s1 (take p.i text) block_bytes p.i (block_index index) open1
                (omega (arith, length-take p.i text, at.within)) reads)
              (λ s2 open2.
                Runs-eq cache (restarted.1 s2) refl (Runs-pure cache s2 out after open2)));
    at = record {
      within = rw next whole;
      so_far = append-nil out ∙ block-so_far p.i ∙ ap (λ k. take k text) (sym next);
      starts = λ h. absurd (omega arith);
      tracks = restarted.2;
    };
    later = rw next (omega arith);
  }
    where
      next : usize_add p.i block_size ≡ p.i + block_size
      next = usize_add_small p.i block_size (omega arith)

      block_bytes : Bytes
      block_bytes = slice p.i (p.i + block_size) text

      out : Bytes
      out = take p.i text ++ block_bytes

      moved : Progress
      moved = record p { buffer = []; i = usize_add p.i block_size }

      restarted :
          (h : BuzHash) × ((s' : Sink)
            → restart block_size text moved s' ≡ (ok (record moved { buz_hasher = h }), s'))
          × Tracks block_size text moved.i h
      restarted = restart-Tracks block_size text fits moved (rw next whole) at.tracks.sized

      after : Progress
      after = record moved { buz_hasher = restarted.0 }

  push_byte-starts :
      (file : Bytes) (p : Progress)
      → At block_size text file p
      → (push_byte block_size text p).buffer_start_index ≡ length file
  unfolding push_byte
  push_byte-starts file p at = elim (is_empty-cases p.buffer) [
    | inl (e, test) ↦ rw test (omega (arith, At-length file p at, ap length e))
    | inr (h, test) ↦ rw test (at.starts h)
  ]

  push_byte-so_far :
      (file : Bytes) (p : Progress)
      → At block_size text file p
      → p.i < length text
      → file ++ (push_byte block_size text p).buffer ≡ take (suc p.i) text
  unfolding push_byte
  push_byte-so_far file p at more =
      sym (append_assoc file p.buffer (get_or text p.i 0 ∷ []))
      ∙ ap (λ t. t ++ get_or text p.i 0 ∷ []) at.so_far
      ∙ sym (take-suc p.i text 0 more)

  push_byte-next : (p : Progress) → p.i < length text → (push_byte block_size text p).i ≡ suc p.i
  unfolding push_byte
  push_byte-next p more = usize_add_small p.i 1 (omega arith) ∙ omega arith

  -- The rest of the round, from a state behind `spill`.
  advance-Round :
      (file out : Bytes) (p q : Progress) (s : Sink) (run : Outcome Progress × Sink)
      → At block_size text file p
      → p.i < length text
      → q.i ≡ suc p.i
      → q.buz_hasher ≡ p.buz_hasher
      → out ++ q.buffer ≡ take (suc p.i) text
      → (0 < length q.buffer → q.buffer_start_index ≡ length out)
      → Runs cache s file out q run
      → Round s file p.i (and_then run (advance block_size text))
  advance-Round file out p q s run at more next same so_far starts first = record {
    after = record q { buz_hasher = advanced.0 };
    out = out;
    runs =
        Runs-bind cache s file out out q (record q { buz_hasher = advanced.0 }) run
          (advance block_size text) first
          (λ s1 open1. Runs-eq cache (advanced.1 s1) refl (Runs-pure cache s1 out _ open1));
    at = record {
      within = rw next more;
      so_far = so_far ∙ ap (λ k. take k text) (sym next);
      starts = starts;
      tracks = subst (λ k. Tracks block_size text k advanced.0) (sym next) advanced.2;
    };
    later = rw next (omega arith);
  }
    where
      advanced :
          (h : BuzHash) × ((s' : Sink)
            → advance block_size text q s' ≡ (ok (record q { buz_hasher = h }), s'))
          × Tracks block_size text (suc p.i) h
      advanced =
          advance-Tracks block_size text fits q p.i pos next (rw next more)
            (subst (λ h. Tracks block_size text p.i h) (sym same) at.tracks)

  pub take_byte-Round :
      (file : Bytes) (p : Progress) (s : Sink)
      → At block_size text file p
      → s.closes ≡ none
      → p.i < length text
      → Round s file p.i (take_byte block_size text p s)
  unfolding take_byte spill
  take_byte-Round file p s at open_channel more =
      elim (Bool-cases (leb max_literal_chunk_size (length q.buffer))) [
        | inr e ↦
            rw (e, spill)
              (advance-Round file file p q s (ok q, s) at more next same so_far (λ _. starts)
                (Runs-pure cache s file q open_channel))
        | inl e ↦
            rw (e, spill)
              (advance-Round file (take (suc p.i) text) p
                (record q { buffer = []; buffer_start_index = q.i }) s _ at more next same
                (append-nil (take (suc p.i) text)) (λ h. absurd (omega arith))
                (Runs-bind cache s file (take (suc p.i) text) (take (suc p.i) text) tt _ _ _
                  (Runs-eq cache refl so_far (
                    send_literal_chunks-Runs cache q.buffer q.buffer_start_index s file room
                      (sym starts) open_channel))
                  (λ s1 open1. Runs-pure cache s1 (take (suc p.i) text) _ open1)))
      ]
    where
      q : Progress
      q = push_byte block_size text p

      next : q.i ≡ suc p.i
      next = push_byte-next p more

      same : q.buz_hasher ≡ p.buz_hasher
      same = unfold push_byte in refl

      starts : q.buffer_start_index ≡ length file
      starts = push_byte-starts file p at

      so_far : file ++ q.buffer ≡ take (suc p.i) text
      so_far = push_byte-so_far file p at more

      room : q.buffer_start_index + length q.buffer < 2 ^ 64
      room =
          omega (
            arith,
            starts,
            length-append file q.buffer,
            ap length so_far,
            length-take (suc p.i) text,
          )
