-- ===== src/State/Plan.antt =====
-- `file_status_vec_to_tree` and `generate_sync_plan` of src/sync/state.rs.
pub mod Decisions
pub mod Laws
use harmonic.Prelude.{Bool, not, if◌then◌else◌, bytes_eq}
use harmonic.Prelude.{Option, none, some, List, [], ◌∷◌, ◌++◌}
use harmonic.Text.{Bytes}
use harmonic.Path.{FilePath}
use harmonic.Path.Keys.{path_ord}
use harmonic.Path.Spelling.{from_text, to_str}
use harmonic.Error.{Outcome, ok, err, panicked, string_invalid, ◌>>=◌}
use harmonic.Proto.{Timestamp, default_timestamp, FileStatus, FileAction}
use harmonic.Proto.{TransferDirection, skip, download, upload, direction_i32}
use harmonic.BTree.{BTreeMap, keys, get, insert, collect_set}
use harmonic.State.{FileMetadata, SyncState, proto_timestamp_gt}

-- The loop of `file_status_vec_to_tree`, from the map built so far.
unfoldable pub insert_hashes : List FileStatus → BTreeMap FilePath Bytes → BTreeMap FilePath Bytes
insert_hashes [] tree = tree
insert_hashes (f ∷ file_status_vec) tree =
    insert_hashes file_status_vec (insert (from_text f.path) f.hash tree)

unfoldable pub file_status_vec_to_tree : List FileStatus → BTreeMap FilePath Bytes
file_status_vec_to_tree file_status_vec = insert_hashes file_status_vec []

-- `collect` of the remote files into a map: the last of the files with one path stays.
unfoldable pub insert_remote :
    List FileStatus → BTreeMap FilePath FileStatus → BTreeMap FilePath FileStatus
insert_remote [] tree = tree
insert_remote (r ∷ remote_files) tree =
    insert_remote remote_files (insert (from_text r.path) r tree)

abbrev pub unwrap_or_default : Option Timestamp → Timestamp
unwrap_or_default none = default_timestamp
unwrap_or_default (some ts) = ts

-- `match (local, remote)`: the direction, and `latest_timestamp` after it.
unfoldable pub decide :
    Option FileMetadata → Option FileStatus → Outcome (TransferDirection × Timestamp)
decide (some local_file) (some remote_file) =
    let remote_file_timestamp = unwrap_or_default remote_file.timestamp in
    if not (bytes_eq remote_file.hash local_file.hash)
    then if proto_timestamp_gt local_file.modified_ts remote_file_timestamp
      then ok (download, local_file.modified_ts)
      else if proto_timestamp_gt remote_file_timestamp local_file.modified_ts
      then ok (upload, remote_file_timestamp)
      else ok (skip, local_file.modified_ts)
    else ok (skip, default_timestamp)
decide (some local_file) none = ok (download, local_file.modified_ts)
decide none (some remote_file) = ok (upload, unwrap_or_default remote_file.timestamp)
decide none none = panicked

-- The body of the `for`: the action that it pushes.
unfoldable pub plan_action : FilePath → Option FileMetadata → Option FileStatus → Outcome FileAction
plan_action path local remote = decide local remote >>= λ decided. elim (to_str path) [
  | none ↦ err string_invalid
  | some path_str ↦ ok (record {
    path = path_str;
    direction = direction_i32 decided.0;
    timestamp_latest_modified = some decided.1;
  })
]

unfoldable pub plan_actions :
    SyncState → BTreeMap FilePath FileStatus → List FilePath → Outcome (List FileAction)
plan_actions state_now remote_tree [] = ok []
plan_actions state_now remote_tree (path ∷ paths) =
    plan_action path (get path state_now.tree) (get path remote_tree) >>= λ action.
    plan_actions state_now remote_tree paths >>= λ rest. ok (action ∷ rest)

unfoldable pub plan_paths : SyncState → BTreeMap FilePath FileStatus → List FilePath
plan_paths state_now remote_tree = collect_set (keys state_now.tree ++ keys remote_tree)

unfoldable pub generate_sync_plan : SyncState → List FileStatus → Outcome (List FileAction)
generate_sync_plan state_now remote_files =
    let remote_tree = insert_remote remote_files [] in
    plan_actions state_now remote_tree (plan_paths state_now remote_tree)
