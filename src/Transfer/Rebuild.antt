-- ===== src/Transfer/Rebuild.antt =====
-- The deltas that `send_delta_from_block_signatures` sends rebuild the file that it reads.
use harmonic.Prelude.{ℕ, zero, suc, ◌+◌, ◌-◌, ◌^◌, ◌≤◌, ◌<◌, ◌≡◌, refl, ◌∙◌, ap, arith}
use harmonic.Prelude.{none, some, List, [], ◌∷◌, ◌++◌, length, slice, take, take_all}
use harmonic.Prelude.{true, leb, leb→le, leb-false_lt, Bool-cases}
use harmonic.Prelude.{◌⊎◌, inl, inr, Option-cases}
use harmonic.Text.{Bytes}
use harmonic.Error.{Outcome, ok}
use harmonic.Proto.{Delta, block_index, complete, SyncRequest}
use harmonic.Sink.{Sink, and_then, and_then_assoc, send}
use harmonic.Writer.{BlockCache, instruction_bytes, write_deltas}
use harmonic.Transfer.BlockMap.{WeakMap, find_block}
use harmonic.Transfer.{Progress, probe, miss, hit, take_block, take_byte}
use harmonic.Transfer.{loop, start, flush, send_deltas}
use harmonic.Transfer.Runs.{Runs, Runs-pure, Runs-seq, Runs-eq, requests, send_open}
use harmonic.Transfer.Tracks.{window_at_lem, start-Tracks}
use harmonic.Transfer.Rounds.{At, Round, flush-Runs, take_block-Round, take_byte-Round}

abbrev pub complete_request : SyncRequest
complete_request = record { payload = some (complete true) }

-- Every block that the map finds for a block of the text is that block in the receiver's cache.
abbrev pub Knows : (Bytes → Bytes) → WeakMap → ℕ → Bytes → BlockCache → Type 0
Knows blake3 map block_size text cache =
    (weak i k : ℕ)
    → i + block_size ≤ length text
    → find_block map weak (blake3 (slice i (i + block_size) text)) ≡ some k
    → instruction_bytes cache (some (block_index k)) ≡ ok (slice i (i + block_size) text)

module _ (blake3 : Bytes → Bytes) (map : WeakMap) (block_size : ℕ) (text : Bytes)
    (fits : length text + block_size < 2 ^ 64) where
  -- The loop never panics at its probe, and a hit is a block that the map finds.
  pub probe-cases :
      (p : Progress)
      → p.i ≤ length text
      → (probe blake3 map block_size text p ≡ miss)
        ⊎ ((k : ℕ) × (probe blake3 map block_size text p ≡ hit k)
            × (p.i + block_size ≤ length text)
            × (find_block map p.buz_hasher.hash (blake3 (slice p.i (p.i + block_size) text))
                ≡ some k))
  unfolding probe
  probe-cases p within = elim (Bool-cases (leb (p.i + block_size) (length text))) [
    | inr e ↦ inl (rw (window_at_lem block_size text fits p.i within, e, probe))
    | inl e ↦
        let found = find_block map p.buz_hasher.hash (blake3 (slice p.i (p.i + block_size) text)) in
        elim (Option-cases found) [
          | inl f ↦ inl (rw (window_at_lem block_size text fits p.i within, e, probe) (rw f))
          | inr (k, f) ↦ inr (
            k,
            rw (window_at_lem block_size text fits p.i within, e, probe) (rw f),
            leb→le (p.i + block_size) (length text) e,
            f,
          )
        ]
  ]

-- A sender's run returns, and what it sent is a list of deltas from which the receiver rebuilds the
-- text, with `complete` behind them.
pub record Rebuilds (cache : BlockCache) (text : Bytes) (s : Sink) (run : Outcome (Unit {0}) × Sink)
    : Type 0 where
  pub sink : Sink
  pub deltas : List Delta
  pub returns : run ≡ (ok tt, sink)
  pub sent : sink.sent ≡ s.sent ++ requests deltas ++ complete_request ∷ []
  pub stays_open : sink.closes ≡ none
  pub wrote : write_deltas cache [] deltas ≡ ok text

module _ (cache : BlockCache) (blake3 : Bytes → Bytes) (map : WeakMap) (block_size : ℕ)
    (text : Bytes) (pos : 0 < block_size) (fits : length text + block_size < 2 ^ 64)
    (knows : Knows blake3 map block_size text cache) where
  -- The loop has ended, and the receiver has all but the buffer.
  record Done (s : Sink) (file : Bytes) (run : Outcome Progress × Sink) : Type 0 where
    after : Progress
    out : Bytes
    runs : Runs cache s file out after run
    at : At block_size text out after
    ended : after.i ≡ length text

  -- A round, and what the rest of the loop does from there.
  Done-Round :
      (fuel : ℕ) (file : Bytes) (i : ℕ) (s : Sink) (run : Outcome Progress × Sink)
      (r : Round cache block_size text pos fits s file i run)
      → Done r.runs.sink r.out (loop blake3 map block_size text fuel r.after r.runs.sink)
      → Done s file (and_then run (loop blake3 map block_size text fuel))
  Done-Round fuel file i s run r rest = record {
    after = rest.after;
    out = rest.out;
    runs = Runs-seq cache s file r.out rest.out r.after rest.after run _ r.runs rest.runs;
    at = rest.at;
    ended = rest.ended;
  }

  loop-Done :
      (fuel : ℕ) (file : Bytes) (p : Progress) (s : Sink)
      → length text - p.i < fuel
      → At block_size text file p
      → s.closes ≡ none
      → Done s file (loop blake3 map block_size text fuel p s)
  unfolding loop
  loop-Done zero file p s enough at open_channel = absurd (omega arith)
  loop-Done (suc fuel) file p s enough at open_channel =
      elim (probe-cases blake3 map block_size text fits p at.within) [
        | inr (k, e, whole, found) ↦
            let r =
              take_block-Round cache block_size text pos fits k file p s at open_channel whole
                (knows p.buz_hasher.hash p.i k whole found) in
            rw (e, loop)
              (Done-Round fuel file p.i s (take_block block_size text k p s) r (
                loop-Done fuel r.out r.after r.runs.sink (omega (arith, r.later, whole, pos)) r.at
                  r.runs.stays_open))
        | inl e ↦ elim (Bool-cases (leb (length text) p.i)) [
          | inl stop ↦
              rw (e, loop)
                (rw stop (record {
                  after = p;
                  out = file;
                  runs = Runs-pure cache s file p open_channel;
                  at = at;
                  ended = omega (arith, at.within, leb→le (length text) p.i stop);
                }))
          | inr more ↦
              let below : p.i < length text = leb-false_lt (length text) p.i more in
              let r =
                take_byte-Round cache block_size text pos fits file p s at open_channel below in
              rw (e, loop)
                (rw more (
                  Done-Round fuel file p.i s (take_byte block_size text p s) r (
                    loop-Done fuel r.out r.after r.runs.sink (omega (arith, r.later, below)) r.at
                      r.runs.stays_open)))
        ]
      ]

  start-At : At block_size text [] (start block_size text)
  unfolding start
  start-At = record {
    within = omega arith;
    so_far = refl;
    starts = λ h. absurd (omega arith);
    tracks = start-Tracks block_size text fits;
  }

  Rebuilds-complete :
      (s : Sink) (out : Bytes) (p : Progress) (run : Outcome Progress × Sink)
      (first : Runs cache s [] out p run)
      → Runs cache first.sink out text tt (flush p first.sink)
      → Rebuilds cache text s
          (and_then run (λ p' s'. and_then (flush p' s') (λ _. send complete_request)))
  Rebuilds-complete s out p run first second = record {
    sink = record both.sink { sent = both.sink.sent ++ complete_request ∷ [] };
    deltas = both.deltas;
    returns =
        and_then_assoc run flush (λ _. send complete_request)
        ∙ ap (λ r. and_then r (λ _. send complete_request)) both.returns
        ∙ send_open complete_request both.sink both.stays_open;
    sent = ap (λ t. t ++ complete_request ∷ []) both.sent;
    stays_open = both.stays_open;
    wrote = both.wrote;
  }
    where
      both : Runs cache s [] text tt (and_then run flush)
      both = Runs-seq cache s [] out text p tt run flush first second

  -- Let the block size be positive and fit 64 bits together with the length of the text, and let
  -- every block that the map finds for a block of the text be that block in the receiver's cache.
  -- On a channel that stays open the sender then returns without an error, within the fuel of its
  -- loop, and has sent deltas from which the receiver makes exactly the text, and then `complete`.
  pub send_deltas-Rebuilds :
      (s : Sink)
      → s.closes ≡ none
      → Rebuilds cache text s (send_deltas blake3 map block_size text s)
  unfolding send_deltas
  send_deltas-Rebuilds s open_channel = Rebuilds-complete s done.out done.after _ done.runs (
      Runs-eq cache refl
        (ap (λ k. take k text) done.ended ∙ take_all (length text) text (omega arith))
        (flush-Runs cache block_size text pos fits done.out done.after done.runs.sink done.at
          done.runs.stays_open))
    where
      done :
          Done s [] (loop blake3 map block_size text (suc (length text)) (start block_size text) s)
      done =
          loop-Done (suc (length text)) [] (start block_size text) s (omega arith) start-At
            open_channel
