-- ===== src/Signatures/Chunks.antt =====
-- The blocks of a file: they make up the file, and all but the last are full.
use harmonic.Prelude.{ℕ, zero, suc, ◌≤◌, ◌<◌, ◌≡◌, refl, ◌∙◌, ap, arith}
use harmonic.Prelude.{[], ◌∷◌, ◌++◌, length, take, drop}
use harmonic.Prelude.{length-drop, take-append-drop}
use mathlib.Core.List.{flatten}
use harmonic.Text.{Bytes}
use harmonic.Signatures.{chunks_from, chunks}

flatten-chunks_from :
    (fuel size : ℕ) (text : Bytes)
    → 0 < size
    → length text ≤ fuel
    → flatten (chunks_from fuel size text) ≡ text
unfolding chunks_from flatten
flatten-chunks_from zero size [] pos enough = refl
flatten-chunks_from zero size (b ∷ text) pos enough = absurd (omega arith)
flatten-chunks_from (suc fuel) size [] pos enough = refl
flatten-chunks_from (suc fuel) size (b ∷ text) pos enough =
    ap (λ t. take size (b ∷ text) ++ t)
      (flatten-chunks_from fuel size (drop size (b ∷ text)) pos
        (omega (arith, length-drop size (b ∷ text))))
    ∙ take-append-drop size (b ∷ text)

-- For a positive block size the blocks that a file is cut into, one behind the other, are the file.
pub flatten-chunks : (size : ℕ) (text : Bytes) → 0 < size → flatten (chunks size text) ≡ text
unfolding chunks
flatten-chunks size text pos = flatten-chunks_from (length text) size text pos (omega arith)
