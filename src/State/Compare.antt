-- ===== src/State/Compare.antt =====
-- `compare_states` of src/sync/state.rs and the conversion of its result to messages.
pub mod Laws
use harmonic.Prelude.{Bool, true, false, ◌||◌, not, if◌then◌else◌, bytes_eq}
use harmonic.Prelude.{Option, none, some, List, [], ◌∷◌, ◌++◌}
use harmonic.Text.{Bytes, is_utf8}
use harmonic.Path.{FilePath, as_os_str}
use harmonic.Path.Keys.{path_ord}
use harmonic.Path.Spelling.{to_str}
use harmonic.Error.{Outcome, ok, err, panicked, string_invalid, ◌>>=◌}
use harmonic.Proto.{FileStatus, FileType, other, file_type_i32}
use harmonic.BTree.{keys, get, collect_set}
use harmonic.State.{
  FileMetadata, SyncState, ChangeType, added, removed, modified, Diff, proto_timestamp_gt,
}

unfoldable pub starts_with_dot : Bytes → Bool
starts_with_dot [] = false
starts_with_dot (b ∷ name) = bytes_eq (b ∷ []) (b'.' ∷ [])

unfoldable pub has_hidden_components : FilePath → Bool
has_hidden_components [] = false
has_hidden_components (c ∷ p) =
    (if is_utf8 (as_os_str c) then starts_with_dot (as_os_str c) else false)
    || has_hidden_components p

-- `filter(|p| !has_hidden_components(p))`
unfoldable pub visible : List FilePath → List FilePath
visible [] = []
visible (p ∷ ps) = let rest = visible ps in if not (has_hidden_components p) then p ∷ rest else rest

abbrev pub modification : FilePath → FileMetadata → FileMetadata → Diff
modification path now_meta before_meta =
    if proto_timestamp_gt now_meta.modified_ts before_meta.modified_ts
    then record {
      path = path;
      change = modified;
      hash = now_meta.hash;
      modified_ts = now_meta.modified_ts;
    }
    else record {
      path = path;
      change = modified;
      hash = before_meta.hash;
      modified_ts = before_meta.modified_ts;
    }

-- The `match` on the file now and before: what it pushes.
unfoldable pub difference :
    FilePath → Option FileMetadata → Option FileMetadata → Outcome (List Diff)
difference path (some now_meta) (some before_meta) =
    if not (bytes_eq now_meta.hash before_meta.hash)
    then ok (modification path now_meta before_meta ∷ [])
    else ok []
difference path (some meta) none =
    ok (
      record { path = path; change = added; hash = meta.hash; modified_ts = meta.modified_ts } ∷ [])
difference path none (some meta) = ok (
    record { path = path; change = removed; hash = meta.hash; modified_ts = meta.modified_ts } ∷ [])
difference path none none = panicked

-- The `for` over the paths.
unfoldable pub differences : SyncState → SyncState → List FilePath → Outcome (List Diff)
differences before_state now_state [] = ok []
differences before_state now_state (path ∷ paths) =
    difference path (get path now_state.tree) (get path before_state.tree) >>= λ pushed.
    differences before_state now_state paths >>= λ rest. ok (pushed ++ rest)

unfoldable pub all_paths : SyncState → SyncState → List FilePath
all_paths before_state now_state =
    collect_set (visible (keys before_state.tree ++ keys now_state.tree))

unfoldable pub compare_states : SyncState → SyncState → Outcome (List Diff)
compare_states before_state now_state =
    differences before_state now_state (all_paths before_state now_state)

-- `FileStatus::try_from`
unfoldable pub try_from : Diff → Outcome FileStatus
try_from diff = elim (to_str diff.path) [
  | none ↦ err string_invalid
  | some path ↦ ok (record {
    path = path;
    timestamp = some diff.modified_ts;
    file_type = file_type_i32 other;
    hash = diff.hash;
  })
]
