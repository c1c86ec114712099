-- ===== src/Signatures/Cache.antt =====
-- What the receiver's signatures let the sender know about the receiver's cache.
use harmonic.Prelude.{ℕ, zero, suc, ◌+◌, ◌^◌, ◌≤◌, ◌<◌, ◌≡◌, refl, sym, ◌∙◌, ap, arith}
use harmonic.Prelude.{some, List, [], ◌∷◌, length, get_elem?, slice}
use mathlib.Core.Option.{some-injective}
use harmonic.Text.{Bytes}
use harmonic.Error.{ok}
use harmonic.Proto.{BlockSignature}
use harmonic.Hash.{BuzHash, compute}
use harmonic.Writer.{instruction_bytes}
use harmonic.Transfer.BlockMap.{block_map, Listed, find_block-Listed}
use harmonic.Transfer.Rebuild.{Knows}
use harmonic.Signatures.{sign_blocks}

-- The chunk that a signature is of.
record Signed (blake3 : Bytes → Bytes) (cs : List Bytes) (place : ℕ) (b : BlockSignature)
    : Type 0 where
  chunk : Bytes
  found : get_elem? cs place ≡ some chunk
  strong : b.strong_checksum ≡ blake3 chunk

sign_blocks-Signed :
    (blake3 : Bytes → Bytes) (h : BuzHash) (cs : List Bytes) (place : ℕ) (b : BlockSignature)
    → get_elem? (sign_blocks blake3 h cs) place ≡ some b
    → Signed blake3 cs place b
unfolding sign_blocks
sign_blocks-Signed blake3 h [] place b e = cc
sign_blocks-Signed blake3 h (c ∷ cs) zero b e = record {
  chunk = c;
  found = refl;
  strong = ap (λ x. x.strong_checksum) (sym (some-injective _ b e));
}
sign_blocks-Signed blake3 h (c ∷ cs) (suc place) b e =
    let rest = sign_blocks-Signed blake3 (compute h c) cs place b e in
    record { chunk = rest.chunk; found = rest.found; strong = rest.strong }

get_elem?-lt {ℓ} :
    {A : Type ℓ} (xs : List A) (i : ℕ) (x : A) → get_elem? xs i ≡ some x → i < length xs
get_elem?-lt [] i x e = cc
get_elem?-lt (y ∷ xs) zero x e = omega arith
get_elem?-lt (y ∷ xs) (suc i) x e = omega (arith, get_elem?-lt xs i x e)

-- No block of the text has the strong checksum of a different block of the cache.
abbrev pub NoCollision : (Bytes → Bytes) → ℕ → Bytes → List Bytes → Type 0
NoCollision blake3 block_size text blocks =
    (i k : ℕ) (chunk : Bytes)
    → get_elem? blocks k ≡ some chunk
    → blake3 (slice i (i + block_size) text) ≡ blake3 chunk
    → slice i (i + block_size) text ≡ chunk

pub sign_blocks-Knows :
    (blake3 : Bytes → Bytes) (h : BuzHash) (block_size : ℕ) (text : Bytes) (blocks : List Bytes)
    → length blocks ≤ 2 ^ 32
    → NoCollision blake3 block_size text blocks
    → Knows blake3
        (block_map (sign_blocks blake3 h blocks))
        block_size
        text
        (record { blocks = blocks })
unfolding instruction_bytes
sign_blocks-Knows blake3 h block_size text blocks few distinct weak i k whole found =
    rw place (rw (signed.found, instruction_bytes) (ap ok (sym same)))
  where
    listed : Listed 0 (sign_blocks blake3 h blocks) weak (blake3 (slice i (i + block_size) text)) k
    listed =
        find_block-Listed (sign_blocks blake3 h blocks) weak
          (blake3 (slice i (i + block_size) text)) k found

    signed : Signed blake3 blocks listed.place listed.signature
    signed = sign_blocks-Signed blake3 h blocks listed.place listed.signature listed.found

    place : k ≡ listed.place
    place =
        omega (arith, listed.same_index, get_elem?-lt blocks listed.place signed.chunk signed.found)

    same : slice i (i + block_size) text ≡ signed.chunk
    same =
        distinct i listed.place signed.chunk signed.found (sym listed.same_strong ∙ signed.strong)
