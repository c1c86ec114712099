-- ===== src/State/Generate.antt =====
-- `FileMetadata::new`, `get_relative_path` and `generate_state` of src/sync/state.rs. The reads
-- from the disk, the walk over the directories and the clock are parameters.
pub mod Laws
use harmonic.Prelude.{ℕ, ◌-◌, ◌%◌, ◌^◌, Bool, true, false, ◌&&◌, not, ltb, if◌then◌else◌}
use harmonic.Prelude.{Option, none, some, List, [], ◌∷◌}
use harmonic.Prelude.Int.{ℤ, wrap}
use harmonic.Text.{Bytes}
use harmonic.Path.{FilePath, strip_prefix}
use harmonic.Path.Keys.{path_ord}
use harmonic.Error.{Outcome, ok, err, path_integrity_error, system_time, ◌>>=◌}
use harmonic.Io.{Io, from_io}
use harmonic.BTree.{BTreeMap, insert}
use harmonic.State.{FileMetadata, SyncState}
use harmonic.State.Compare.{has_hidden_components}

-- A time of modification: seconds and nanoseconds after the epoch, or a time before it.
pub data SystemTime : Type 0 where
  since_epoch : ℕ → ℕ → SystemTime
  before_epoch : SystemTime

-- What the disk answers: the content and the time of modification of a file.
pub record Disk : Type 0 where
  pub read : FilePath → Io Bytes
  pub modified : FilePath → Io SystemTime

abbrev pub metadata_at : (Bytes → Bytes) → Bytes → SystemTime → Outcome FileMetadata
metadata_at blake3 file (since_epoch secs nanos) = ok (record {
  hash = blake3 file;
  modified_ts = record { seconds = wrap 64 secs; nanos = wrap 32 nanos };
})
metadata_at blake3 file before_epoch = err (system_time [])

-- `FileMetadata::new`
unfoldable pub file_metadata : (Bytes → Bytes) → Disk → FilePath → Outcome FileMetadata
file_metadata blake3 disk path = from_io (disk.read path) >>= λ file.
    from_io (disk.modified path) >>= λ time. metadata_at blake3 file time

unfoldable pub get_relative_path : FilePath → FilePath → Outcome FilePath
get_relative_path absolute_path sync_path = elim (strip_prefix absolute_path sync_path) [
  | none ↦ err (path_integrity_error absolute_path sync_path)
  | some p ↦ ok p
]

-- An entry of the walk; `is_file` is absent where its metadata cannot be read.
pub record Entry : Type 0 where
  pub path : FilePath
  pub is_file : Option Bool

abbrev pub unwrap_or_false : Option Bool → Bool
unwrap_or_false none = false
unwrap_or_false (some b) = b

abbrev pub wanted : Bool → Entry → Bool
wanted ignore_hidden e =
    unwrap_or_false e.is_file
    && (if ignore_hidden then not (has_hidden_components e.path) else true)

-- The filters over the walk, an element of which may be an error.
unfoldable pub wanted_files : Bool → List (Option Entry) → List FilePath
wanted_files ignore_hidden [] = []
wanted_files ignore_hidden (none ∷ entries) = wanted_files ignore_hidden entries
wanted_files ignore_hidden (some e ∷ entries) =
    let rest = wanted_files ignore_hidden entries in
    if wanted ignore_hidden e then e.path ∷ rest else rest

-- The `for` over the files, from the tree built so far.
unfoldable pub insert_files :
    (Bytes → Bytes)
    → Disk
    → FilePath
    → List FilePath
    → BTreeMap FilePath FileMetadata
    → Outcome (BTreeMap FilePath FileMetadata)
insert_files blake3 disk root_path [] file_tree = ok file_tree
insert_files blake3 disk root_path (file ∷ files) file_tree =
    get_relative_path file root_path >>= λ relative_path.
    file_metadata blake3 disk file >>= λ metadata.
    insert_files blake3 disk root_path files (insert relative_path metadata file_tree)

unfoldable pub generate_state :
    (Bytes → Bytes)
    → Disk
    → (FilePath → List (Option Entry))
    → ℤ
    → FilePath
    → Bool
    → Outcome SyncState
generate_state blake3 disk walk now root_path ignore_hidden =
    insert_files blake3 disk root_path (wanted_files ignore_hidden (walk root_path)) []
    >>= λ file_tree. ok (record { last_sync_timestamp_micros = now; tree = file_tree })
