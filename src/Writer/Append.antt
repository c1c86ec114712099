-- ===== src/Writer/Append.antt =====
-- Deltas that come in the order of their indices append to the file.
use harmonic.Prelude.{ℕ, suc, ◌+◌, ◌-◌, ◌≡◌, sym, ◌∙◌, ap, arith, some}
use harmonic.Prelude.{List, [], ◌∷◌, ◌++◌, length, append-nil, take_all, drop_all}
use harmonic.Text.{Bytes}
use harmonic.Error.{ok, ◌>>=◌, >>=-eq-ok}
use harmonic.Proto.{Delta, Instruction}
use harmonic.Writer.{BlockCache, write_at, instruction_bytes, write_delta, write_deltas}

pub write_at_end : (file bytes : Bytes) → write_at (length file) bytes file ≡ file ++ bytes
unfolding write_at
write_at_end file [] = sym (append-nil file)
write_at_end file (b ∷ bytes) =
    let e : length file - length file ≡ 0 = omega arith in
    rw
      (
        e,
        append-nil file,
        take_all (length file) file (omega arith),
        drop_all (length file + suc (length bytes)) file (omega arith),
      )
      (append-nil (file ++ b ∷ bytes))

pub write_delta_end :
    (cache : BlockCache) (file bytes : Bytes) (index : ℕ) (instruction : Instruction)
    → index ≡ length file
    → instruction_bytes cache (some instruction) ≡ ok bytes
    → write_delta cache file (record { index = index; instruction = some instruction })
      ≡ ok (file ++ bytes)
unfolding write_delta
write_delta_end cache file bytes index instruction e h =
    rw (h, write_delta) (ap (λ k. ok (write_at k bytes file)) e ∙ ap ok (write_at_end file bytes))

pub write_deltas-append :
    (cache : BlockCache) (file out : Bytes) (ds es : List Delta)
    → write_deltas cache file ds ≡ ok out
    → write_deltas cache file (ds ++ es) ≡ write_deltas cache out es
unfolding write_deltas
write_deltas-append cache file out [] es h = ap (λ t. t >>= λ file'. write_deltas cache file' es) h
write_deltas-append cache file out (d ∷ ds) es h =
    let rest = λ (file' : Bytes). write_deltas cache file' ds in
    let (file', e, h') = >>=-eq-ok (write_delta cache file d) rest h in
    rw (e, write_deltas) (write_deltas-append cache file' out ds es h')
