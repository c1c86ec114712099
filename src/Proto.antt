-- ===== src/Proto.antt =====
-- The messages of proto/harmonic.proto and proto/bootstrap.proto, as prost generates them: an enum
-- field is an `i32`, a message field and a `oneof` are optional, a string is UTF-8 text.
use harmonic.Prelude.{ℕ, Bool, Option, List}
use harmonic.Prelude.Int.{ℤ, pos}
use harmonic.Text.{Bytes}

-- `prost_types::Timestamp`: an `i64` and an `i32`.
pub record Timestamp : Type 0 where
  pub seconds : ℤ
  pub nanos : ℤ

abbrev pub default_timestamp : Timestamp
default_timestamp = record { seconds = pos 0; nanos = pos 0 }

pub data FileType : Type 0 where
  other markdown pdf : FileType

abbrev pub file_type_i32 : FileType → ℤ
file_type_i32 other = pos 0
file_type_i32 markdown = pos 1
file_type_i32 pdf = pos 2

pub data TransferDirection : Type 0 where
  skip download upload : TransferDirection

abbrev pub direction_i32 : TransferDirection → ℤ
direction_i32 skip = pos 0
direction_i32 download = pos 1
direction_i32 upload = pos 2

pub record FileStatus : Type 0 where
  pub path : Bytes
  pub timestamp : Option Timestamp
  pub file_type : ℤ
  pub hash : Bytes

pub record FileAction : Type 0 where
  pub path : Bytes
  pub direction : ℤ
  pub timestamp_latest_modified : Option Timestamp

pub record ClientSyncState : Type 0 where
  pub sync_uuid : Bytes
  pub timestamp_last_sync_micro : ℤ
  pub status_list : List FileStatus

pub record ServerSyncStateResponse : Type 0 where
  pub sync_uuid : Bytes
  pub timestamp_micro : ℤ
  pub sync_plan : List FileAction

pub record BlockSignature : Type 0 where
  pub weak_checksum : ℕ
  pub strong_checksum : Bytes

pub record BlockSignatures : Type 0 where
  pub block_size : ℕ
  pub blocks : List BlockSignature

pub data Instruction : Type 0 where
  block_index : ℕ → Instruction
  literal : Bytes → Instruction

pub record Delta : Type 0 where
  pub index : ℕ
  pub instruction : Option Instruction

pub data Payload : Type 0 where
  file_action : FileAction → Payload
  signatures : BlockSignatures → Payload
  delta : Delta → Payload
  complete : Bool → Payload

pub record SyncRequest : Type 0 where
  pub payload : Option Payload
