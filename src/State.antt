-- ===== src/State.antt =====
-- The data of src/sync/state.rs and the order of its timestamps.
pub mod Compare
pub mod Generate
pub mod Plan
pub mod Saved
pub mod Timestamps
use harmonic.Prelude.{Bool, ◌&&◌, ◌||◌, not}
use harmonic.Prelude.Int.{ℤ, ltb_ℤ}
use harmonic.Text.{Bytes}
use harmonic.Path.{FilePath}
use harmonic.Path.Keys.{path_ord}
use harmonic.Proto.{Timestamp}
use harmonic.BTree.{BTreeMap}

pub record FileMetadata : Type 0 where
  pub hash : Bytes
  pub modified_ts : Timestamp

pub record SyncState : Type 0 where
  pub last_sync_timestamp_micros : ℤ
  pub tree : BTreeMap FilePath FileMetadata

pub data ChangeType : Type 0 where
  added removed modified : ChangeType

pub record Diff : Type 0 where
  pub path : FilePath
  pub change : ChangeType
  pub hash : Bytes
  pub modified_ts : Timestamp

-- The tuples of seconds and nanoseconds, compared with `>`.
unfoldable pub proto_timestamp_gt : Timestamp → Timestamp → Bool
proto_timestamp_gt a b =
    ltb_ℤ b.seconds a.seconds || (not (ltb_ℤ a.seconds b.seconds) && ltb_ℤ b.nanos a.nanos)
