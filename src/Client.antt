-- ===== src/Client.antt =====
-- The triggers of src/bin/client.rs: the score of the file system events and the queue.
pub mod Cert
pub mod Pool
pub mod Queue
pub mod Security
pub mod Start
pub mod Sync
pub mod Triggers
use harmonic.Prelude.{ℕ, ◌+◌, ◌%◌, ◌^◌, Bool, true, false, ltb, if◌then◌else◌}
use harmonic.Prelude.{Option, none, some, List, [], ◌∷◌, ◌++◌}
use harmonic.Config.{Config}

-- `EventKind` of the crate notify, as far as it is told apart.
pub data EventKind : Type 0 where
  any access create modify remove other : EventKind

unfoldable pub calculate_change_score : EventKind → Config → ℕ
calculate_change_score modify config = config.modify_weight
calculate_change_score remove config = config.remove_weight
calculate_change_score create config = config.create_weight
calculate_change_score any config = 0
calculate_change_score access config = 0
calculate_change_score other config = 0

unfoldable pub should_trigger_sync : ℕ → Config → Bool
should_trigger_sync score config = ltb config.sync_threshold score

-- The score of the watcher's task, and the queue that it shares.
pub record Watch : Type 0 where
  pub change_score : ℕ
  pub queue : List Bool

-- One round of the watcher's loop. The score is a `u64`.
unfoldable pub observe : Config → EventKind → Watch → Watch
observe config kind w =
    let score = (w.change_score + calculate_change_score kind config) % 2 ^ 64 in
    if should_trigger_sync score config
    then record { change_score = 0; queue = w.queue ++ true ∷ [] }
    else record w { change_score = score }

-- The loop of `start_watcher`: it ends at the first error.
unfoldable pub start_watcher : Config → List (Option EventKind) → Watch → Watch
start_watcher config [] w = w
start_watcher config (none ∷ events) w = w
start_watcher config (some kind ∷ events) w = start_watcher config events (observe config kind w)

-- One round of the loop of `main`: whether a synchronisation is started, and the queue after.
unfoldable pub check_queue : List Bool → Bool × List Bool
check_queue [] = (false, [])
check_queue (b ∷ queue) = (true, [])
