-- ===== src/State/Saved/Micros.antt =====
-- The timestamps in a saved state of src/sync/state.rs are whole microseconds.
use harmonic.Prelude.{ℕ, ◌+◌, ◌*◌, ◌/◌, ◌%◌, ◌^◌, ◌<◌}
use harmonic.Prelude.{◌≡◌, ap, ap₂, ◌∙◌, arith}
use harmonic.Prelude.Int.{pos, wrap}
use harmonic.State.Saved.{difference, add_ℤ, scale, wrap_ℤ, serialize, deserialize}

difference-zero : (a : ℕ) → difference a 0 ≡ pos a
difference-zero a = ground arith

wrap-small : (n : ℕ) → n < 2 ^ 63 → wrap 64 n ≡ pos n
wrap-small n h = ground arith

wrap_32-small : (n : ℕ) → n < 2 ^ 31 → wrap 32 n ≡ pos n
wrap_32-small n h = ground arith

-- The written number of a time after the epoch.
serialize-pos :
    (s n : ℕ)
    → s * 1000000 + 1000000 < 2 ^ 63
    → n < 1000000000
    → serialize (record { seconds = pos s; nanos = pos n }) ≡ pos (s * 1000000 + n / 1000)
unfolding serialize
serialize-pos s n small nanos =
    ap₂ (λ a b. wrap_ℤ 64 (add_ℤ (wrap_ℤ 64 a) b)) (difference-zero (s * 1000000))
      (difference-zero (n / 1000))
    ∙ ap (λ a. wrap_ℤ 64 (add_ℤ a (pos (n / 1000)))) (wrap-small (s * 1000000) (omega arith))
    ∙ ap (wrap_ℤ 64) (difference-zero (s * 1000000 + n / 1000))
    ∙ wrap-small (s * 1000000 + n / 1000) (omega arith)

-- The time of a number that is not negative.
deserialize-pos :
    (m : ℕ)
    → deserialize (pos m) ≡ record { seconds = pos (m / 1000000); nanos = pos (m % 1000000 * 1000) }
unfolding deserialize
deserialize-pos m =
    ap₂ (λ a b. record { seconds = a; nanos = b }) (difference-zero (m / 1000000))
      (ap (λ a. wrap_ℤ 32 (scale a 1000)) (difference-zero (m % 1000000))
        ∙ ap (wrap_ℤ 32) (difference-zero (m % 1000000 * 1000))
        ∙ wrap_32-small (m % 1000000 * 1000) (omega arith))

-- A time at or after the epoch whose microseconds fit 64 bits is read back with its nanoseconds
-- rounded down to microseconds.
pub deserialize-serialize :
    (s n : ℕ)
    → s * 1000000 + 1000000 < 2 ^ 63
    → n < 1000000000
    → deserialize (serialize (record { seconds = pos s; nanos = pos n }))
      ≡ record { seconds = pos s; nanos = pos (n / 1000 * 1000) }
deserialize-serialize s n small nanos =
    ap deserialize (serialize-pos s n small nanos)
    ∙ deserialize-pos (s * 1000000 + n / 1000)
    ∙ ap₂ (λ a b. record { seconds = pos a; nanos = pos b }) whole part
  where
    whole : (s * 1000000 + n / 1000) / 1000000 ≡ s
    whole = omega arith

    part : (s * 1000000 + n / 1000) % 1000000 * 1000 ≡ n / 1000 * 1000
    part = omega arith
