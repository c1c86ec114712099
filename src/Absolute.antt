-- ===== src/Absolute.antt =====
-- `get_absolute_path` of src/sync/transfer.rs. `clean` is `PathClean::clean` of the crate path_clean.
pub mod Safety
use harmonic.Prelude.{Bool, true, false, not, if◌then◌else◌, [], ◌∷◌}
use harmonic.Path.{FilePath, parent_dir, is_absolute, starts_with, join}
use harmonic.Error.{Outcome, ok, err, path_error, path_integrity_error}

unfoldable pub get_absolute_path : (FilePath → FilePath) → FilePath → FilePath → Outcome FilePath
get_absolute_path clean relative_path sync_path =
    let cleaned = clean relative_path in
    let abs = join sync_path cleaned in
    if is_absolute relative_path
    then err (path_error relative_path)
    else if starts_with cleaned (parent_dir ∷ [])
    then err (path_error relative_path)
    else if not (starts_with abs sync_path)
    then err (path_integrity_error abs sync_path)
    else ok abs
