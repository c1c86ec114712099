-- ===== src/Examples/States.antt =====
-- The properties of states and plans at concrete inputs.
use harmonic.Prelude.{ℕ, ◌*◌, ◌/◌, true, false, bytes_eq, Option, none, some, List, [], ◌∷◌, ◌++◌}
use harmonic.Prelude.{◌≡◌, refl, arith}
use harmonic.Prelude.Int.{pos}
use harmonic.Text.{Bytes}
use harmonic.Order.Lists.{lex}
use harmonic.Path.{FilePath, root_dir, normal, strip_prefix}
use harmonic.Path.Keys.{path_ord}
use harmonic.Error.{ok}
use harmonic.Io.{done}
use harmonic.Proto.{Timestamp, FileStatus, file_type_i32, other}
use harmonic.BTree.{keys, insert}
use harmonic.BTree.Laws.{IsSorted}
use harmonic.State.{FileMetadata, SyncState}
use harmonic.State.Compare.Laws.{Compared, compare_states-Compared}
use harmonic.State.Plan.Laws.{PlannedFor, generate_sync_plan-PlannedFor}
use harmonic.State.Generate.{
  Disk, Entry, since_epoch, file_metadata, get_relative_path, insert_files, wanted_files,
  generate_state,
}
use harmonic.State.Generate.Laws.{Generated, generate_state-Generated}
use harmonic.State.Saved.{serialize, deserialize}
use harmonic.State.Saved.Micros.{deserialize-serialize}

abbrev at : ℕ → Timestamp
at s = record { seconds = pos s; nanos = pos 0 }

abbrev a : FilePath
a = normal (b'a' ∷ []) ∷ []

abbrev b : FilePath
b = normal (b'b' ∷ []) ∷ []

abbrev metadata : ℕ → ℕ → FileMetadata
metadata h s = record { hash = h ∷ []; modified_ts = at s }

abbrev before_state : SyncState
before_state = record { last_sync_timestamp_micros = pos 0; tree = (a, metadata 1 5) ∷ [] }

abbrev now_state : SyncState
now_state = record {
  last_sync_timestamp_micros = pos 0;
  tree = (a, metadata 2 7) ∷ (b, metadata 3 6) ∷ [];
}

before-IsSorted : IsSorted (keys before_state.tree)
unfolding keys
before-IsSorted = (tt, tt)

now-IsSorted : IsSorted (keys now_state.tree)
unfolding keys lex
now-IsSorted = ((refl, tt), (tt, tt))

compare_states-Compared_example : Compared before_state now_state
compare_states-Compared_example =
    compare_states-Compared before_state now_state before-IsSorted now-IsSorted

abbrev status : FileStatus
status = record {
  path = b'a' ∷ [];
  timestamp = some (at 9);
  file_type = file_type_i32 other;
  hash = 4 ∷ [];
}

generate_sync_plan-PlannedFor_example : PlannedFor now_state (status ∷ [])
generate_sync_plan-PlannedFor_example =
    generate_sync_plan-PlannedFor now_state (status ∷ []) now-IsSorted

abbrev directory : FilePath
directory = root_dir ∷ normal (b'd' ∷ []) ∷ []

abbrev disk : Disk
disk = record { read = λ p. done (1 ∷ []); modified = λ p. done (since_epoch 5 0) }

abbrev walk : FilePath → List (Option Entry)
walk p = some (record { path = p ++ a; is_file = some true }) ∷ none ∷ []

abbrev itself : Bytes → Bytes
itself text = text

generated : generate_state itself disk walk (pos 0) directory false ≡ ok before_state
unfolding generate_state wanted_files insert_files get_relative_path file_metadata strip_prefix
    insert bytes_eq
generated = refl

generate_state-Generated_example :
    Generated itself disk directory (wanted_files false (walk directory)) before_state
generate_state-Generated_example =
    generate_state-Generated itself disk walk (pos 0) directory false before_state generated

deserialize-serialize_example :
    deserialize (serialize (record { seconds = pos 7; nanos = pos 1234 }))
    ≡ record { seconds = pos 7; nanos = pos (1234 / 1000 * 1000) }
deserialize-serialize_example = deserialize-serialize 7 1234 (omega arith) (omega arith)
