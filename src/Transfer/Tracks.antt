-- ===== src/Transfer/Tracks.antt =====
-- Where the loop of the sender is, and that its hasher is kept in step with the window at `i`.
use harmonic.Prelude.{ℕ, suc, ◌+◌, ◌-◌, ◌^◌, ◌≤◌, ◌<◌, ◌≡◌, refl, sym, ◌∙◌, ap, arith}
use harmonic.Prelude.{some, [], ◌∷◌, ◌++◌, length, get_or, take, drop, slice}
use harmonic.Prelude.{
  drop-one, window-shift, get_or-drop, get_elem?-get_or, length-drop, length-take,
}
use harmonic.Prelude.{
  leb, leb→le, le→leb, leb-false, leb-false_lt, take_all, Bool-cases, inl, inr, if◌then◌else◌,
}
use harmonic.Text.{Bytes}
use harmonic.Error.{ok}
use harmonic.Hash.{BuzHash, new, compute, roll}
use harmonic.Hash.Rolling.{IsRolling, compute-IsRolling, roll-IsRolled}
use harmonic.Sink.{Sink}
use harmonic.Transfer.{usize_add, usize_pred, Progress, short, block, window_at}
use harmonic.Transfer.{advance, restart, start}
use harmonic.Transfer.Literals.{usize_add_small}

pub usize_pred_pos : (a : ℕ) → 0 < a → a < 2 ^ 64 → usize_pred a ≡ a - 1
unfolding usize_pred
usize_pred_pos a pos h = omega arith

-- The hasher holds the block at `i`, if there is a whole one.
pub record Tracks (block_size : ℕ) (text : Bytes) (i : ℕ) (h : BuzHash) : Type 0 where
  pub sized : h.window_size ≡ block_size
  pub rolls :
      i + block_size ≤ length text → IsRolling h × (h.window ≡ slice i (i + block_size) text)

pub slice_block : (i n : ℕ) (text : Bytes) → slice i (i + n) text ≡ take n (drop i text)
slice_block i n text = let e : i + n - i ≡ n = omega arith in rw e

module _ (block_size : ℕ) (text : Bytes) (fits : length text + block_size < 2 ^ 64) where
  pub window_at_lem :
      (i : ℕ)
      → i ≤ length text
      → window_at block_size text i ≡ (
          if leb (i + block_size) (length text)
          then block (slice i (i + block_size) text)
          else short)
  unfolding window_at
  window_at_lem i h =
      rw (usize_add_small i block_size (omega arith), le→leb i (i + block_size) (omega arith))

  length-slice :
      (i : ℕ) → i + block_size ≤ length text → length (slice i (i + block_size) text) ≡ block_size
  length-slice i h =
      omega (arith, length-take (i + block_size - i) (drop i text), length-drop i text)

  compute-Tracks :
      (h : BuzHash) (bytes : Bytes) (i : ℕ)
      → h.window_size ≡ block_size
      → (i + block_size ≤ length text → take block_size bytes ≡ slice i (i + block_size) text)
      → Tracks block_size text i (compute h bytes)
  unfolding compute
  compute-Tracks h bytes i sized same = record {
    sized = sized;
    rolls = λ whole. (
      compute-IsRolling h bytes (
          omega
            (arith, length-take block_size bytes, length-slice i whole, ap length (same whole))),
      ap (λ n. take n bytes) sized ∙ same whole,
    );
  }

  pub restart-Tracks :
      (p : Progress)
      → p.i ≤ length text
      → p.buz_hasher.window_size ≡ block_size
      → (h : BuzHash) × ((s : Sink)
          → restart block_size text p s ≡ (ok (record p { buz_hasher = h }), s))
        × Tracks block_size text p.i h
  unfolding restart
  restart-Tracks p within sized = elim (Bool-cases (leb (p.i + block_size) (length text))) [
    | inr e ↦ (
      p.buz_hasher,
      λ s. rw (window_at_lem p.i within, e, restart),
      record { sized = sized; rolls = λ h. cc (le→leb (p.i + block_size) (length text) h) },
    )
    | inl e ↦
        let bytes = slice p.i (p.i + block_size) text in
        (
          compute p.buz_hasher bytes,
          λ s. rw (window_at_lem p.i within, e, restart),
          compute-Tracks p.buz_hasher bytes p.i sized
              (λ whole. take_all block_size bytes (omega (arith, length-slice p.i whole))),
        )
  ]

  -- A full block, without its first byte and with the byte behind it, is the next block.
  slice-shift :
      (i : ℕ)
      → 0 < block_size
      → suc i + block_size ≤ length text
      → drop 1 (slice i (i + block_size) text) ++ get_or text (i + block_size) 0 ∷ []
        ≡ slice (suc i) (suc i + block_size) text
  slice-shift i pos h =
      ap (λ t. drop 1 t ++ get_or text (i + block_size) 0 ∷ []) (slice_block i block_size text)
      ∙ ap (λ d. drop 1 (take block_size (drop i text)) ++ d ∷ [])
          (sym (get_or-drop i block_size text 0))
      ∙ window-shift block_size (drop i text) 0 (omega (arith, length-drop i text)) pos
      ∙ ap (take block_size) (drop-one i text)
      ∙ sym (slice_block (suc i) block_size text)

  advance-whole :
      (p : Progress) (s : Sink) (i : ℕ) {h : BuzHash}
      → 0 < block_size
      → p.i ≡ suc i
      → suc i + block_size ≤ length text
      → roll p.buz_hasher (get_or text (i + block_size) 0) ≡ some h
      → advance block_size text p s ≡ (ok (record p { buz_hasher = h }), s)
  unfolding advance
  advance-whole p s i pos e whole rolled =
      let sum : usize_add p.i block_size ≡ suc i + block_size =
        ap (λ k. usize_add k block_size) e ∙ usize_add_small (suc i) block_size (omega arith) in
      let last : usize_pred (suc i + block_size) ≡ i + block_size =
        usize_pred_pos (suc i + block_size) (omega arith) (omega arith) ∙ omega arith in
      rw (
        sum,
        le→leb (suc i + block_size) (length text) whole,
        last,
        get_elem?-get_or (i + block_size) text 0 (omega arith),
        rolled,
      )

  advance-partial :
      (p : Progress) (s : Sink) (i : ℕ)
      → p.i ≡ suc i
      → p.i ≤ length text
      → length text < suc i + block_size
      → advance block_size text p s ≡ (ok p, s)
  unfolding advance
  advance-partial p s i e within over =
      let sum : usize_add p.i block_size ≡ suc i + block_size =
        ap (λ k. usize_add k block_size) e ∙ usize_add_small (suc i) block_size (omega arith) in
      rw (sum, leb-false (suc i + block_size) (length text) over)

  pub advance-Tracks :
      (p : Progress) (i : ℕ)
      → 0 < block_size
      → p.i ≡ suc i
      → p.i ≤ length text
      → Tracks block_size text i p.buz_hasher
      → (h : BuzHash) × ((s : Sink)
          → advance block_size text p s ≡ (ok (record p { buz_hasher = h }), s))
        × Tracks block_size text (suc i) h
  advance-Tracks p i pos e within t = elim (Bool-cases (leb (suc i + block_size) (length text))) [
    | inr f ↦
        let over : length text < suc i + block_size =
          leb-false_lt (suc i + block_size) (length text) f in
        (
          p.buz_hasher,
          λ s. advance-partial p s i e within over,
          record { sized = t.sized; rolls = λ h. absurd (omega arith) },
        )
    | inl f ↦
        let whole : suc i + block_size ≤ length text =
          leb→le (suc i + block_size) (length text) f in
        let (rolling, window) = t.rolls (omega arith) in
        let byte = get_or text (i + block_size) 0 in
        let rolled = roll-IsRolled p.buz_hasher byte (rw t.sized pos) rolling in
        (
          rolled.after,
          λ s. advance-whole p s i pos e whole rolled.rolls,
          record {
            sized = rolled.same_size ∙ t.sized;
            rolls = λ _. (
              rolled.rolling,
              rolled.moved ∙ ap (λ t. drop 1 t ++ byte ∷ []) window ∙ slice-shift i pos whole,
            );
          },
        )
  ]

  pub start-Tracks : Tracks block_size text 0 (start block_size text).buz_hasher
  unfolding start new
  start-Tracks = elim (Bool-cases (leb (length text) block_size)) [
    | inl e ↦
        rw e (
          compute-Tracks (new block_size) text 0 refl
            (λ whole. sym (slice_block 0 block_size text)))
    | inr e ↦ rw e (
        compute-Tracks (new block_size) (slice 0 block_size text) 0 refl (λ whole.
          let e0 : block_size - 0 ≡ block_size = omega arith in
          rw e0 (
            take_all block_size (take block_size text) (omega (arith, length-take block_size text))
            ∙ sym (slice_block 0 block_size text))))
  ]
