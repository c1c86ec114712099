-- ===== src/Client/Triggers.antt =====
-- When the watcher of src/bin/client.rs asks for a synchronisation.
use native.Mathlib.Nat.{add-mul}
use harmonic.Prelude.{ap, ℕ, suc, ◌+◌, ◌*◌, ◌%◌, ◌^◌, ◌≤◌, ◌<◌, true, ltb}
use harmonic.Prelude.{Option, none, some, List, [], ◌∷◌, length, length-append, ◌≡◌, arith}
use harmonic.Prelude.{Bool-cases, inl, inr, ltb→lt, ltb-false_le}
use harmonic.Config.{Config}
use harmonic.Client.{
  EventKind, calculate_change_score, should_trigger_sync, Watch, observe, start_watcher,
}

-- The weights of the events before the first error.
unfoldable pub total : Config → List (Option EventKind) → ℕ
total config [] = 0
total config (none ∷ events) = 0
total config (some kind ∷ events) = calculate_change_score kind config + total config events

observe-keeps :
    (config : Config) (kind : EventKind) (w : Watch)
    → w.change_score + calculate_change_score kind config < 2 ^ 64
    → ((observe config kind w).change_score ≤ config.sync_threshold)
      × (length (observe config kind w).queue * suc config.sync_threshold
            + (observe config kind w).change_score
          ≤ length w.queue * suc config.sync_threshold
            + w.change_score
            + calculate_change_score kind config)
unfolding observe should_trigger_sync
observe-keeps config kind w fits =
    elim (Bool-cases
      (ltb config.sync_threshold (w.change_score + calculate_change_score kind config))) [
        | inl over ↦
            rw (whole, over, observe)
              (
                omega arith,
                omega (
                  arith,
                  ltb→lt config.sync_threshold (w.change_score + calculate_change_score kind config)
                      over,
                  length-append w.queue (true ∷ []),
                  ap (λ n. n * suc config.sync_threshold) (length-append w.queue (true ∷ [])),
                  add-mul (length w.queue) 1 (suc config.sync_threshold),
                ),
              )
        | inr under ↦
            rw (whole, under, observe)
              (
                ltb-false_le config.sync_threshold
                    (w.change_score + calculate_change_score kind config) under,
                omega arith,
              )
      ]
  where
    whole :
        (w.change_score + calculate_change_score kind config) % 2 ^ 64
        ≡ w.change_score + calculate_change_score kind config
    whole = omega arith

-- If no weight overflows 64 bits on top of the threshold and the score starts within the
-- threshold, then the score of the watcher never stays above the threshold, and the requests that it
-- queues are paid for by events: each takes more than the threshold of their weights.
pub start_watcher-keeps :
    (config : Config) (events : List (Option EventKind)) (w : Watch)
    → ((kind : EventKind) → config.sync_threshold + calculate_change_score kind config < 2 ^ 64)
    → w.change_score ≤ config.sync_threshold
    → ((start_watcher config events w).change_score ≤ config.sync_threshold)
      × (length (start_watcher config events w).queue * suc config.sync_threshold
            + (start_watcher config events w).change_score
          ≤ length w.queue * suc config.sync_threshold + w.change_score + total config events)
unfolding start_watcher total
start_watcher-keeps config [] w fits low = (low, omega arith)
start_watcher-keeps config (none ∷ events) w fits low = (low, omega arith)
start_watcher-keeps config (some kind ∷ events) w fits low =
    let step = observe-keeps config kind w (omega (arith, fits kind)) in
    let rest = start_watcher-keeps config events (observe config kind w) fits step.0 in
    (rest.0, omega (arith, step.1, rest.1))
