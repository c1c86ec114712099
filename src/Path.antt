-- ===== src/Path.antt =====
-- `std::path` as src/sync and src/bin use it, on a Unix system. A path is the list of its
-- components, which is what `PathBuf` compares; names are byte strings.
pub mod Keys
pub mod Spelling
use harmonic.Prelude.{Bool, true, false, ◌&&◌, if◌then◌else◌, bytes_eq}
use harmonic.Prelude.{Option, none, some, List, [], ◌∷◌, ◌++◌}
use harmonic.Text.{Bytes}

pub data Component : Type 0 where
  root_dir cur_dir parent_dir : Component
  normal : Bytes → Component

abbrev pub FilePath : Type 0
FilePath = List Component

-- `Component::as_os_str`
abbrev pub as_os_str : Component → Bytes
as_os_str root_dir = b'/' ∷ []
as_os_str cur_dir = b'.' ∷ []
as_os_str parent_dir = b'.' ∷ b'.' ∷ []
as_os_str (normal name) = name

abbrev pub component_eq : Component → Component → Bool
component_eq root_dir root_dir = true
component_eq cur_dir cur_dir = true
component_eq parent_dir parent_dir = true
component_eq (normal a) (normal b) = bytes_eq a b
component_eq _ _ = false

unfoldable pub is_absolute : FilePath → Bool
is_absolute (root_dir ∷ p) = true
is_absolute _ = false

-- `Path::starts_with`
unfoldable pub starts_with : FilePath → FilePath → Bool
starts_with p [] = true
starts_with [] (c ∷ base) = false
starts_with (d ∷ p) (c ∷ base) = component_eq d c && starts_with p base

-- `Path::strip_prefix`
unfoldable pub strip_prefix : FilePath → FilePath → Option FilePath
strip_prefix p [] = some p
strip_prefix [] (c ∷ base) = none
strip_prefix (d ∷ p) (c ∷ base) =
    let rest = strip_prefix p base in if component_eq d c then rest else none

-- A `.` is a component only at the very front of a path.
unfoldable pub append : FilePath → FilePath → FilePath
append [] p = p
append base (cur_dir ∷ p) = base ++ p
append base p = base ++ p

-- `Path::join`: an absolute path replaces the base.
unfoldable pub join : FilePath → FilePath → FilePath
unfolding is_absolute append
join base p = if is_absolute p then p else append base p
