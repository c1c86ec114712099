-- ===== src/Path/Spelling.antt =====
-- Paths as text: `PathBuf::from` and `Path::to_str`. A path has the one spelling that its
-- components give it: repeated separators and inner `.` are not kept.
use harmonic.Prelude.{ℕ, ◌==◌, if◌then◌else◌, bytes_eq}
use harmonic.Prelude.{Option, none, some, List, [], ◌∷◌, ◌++◌}
use harmonic.Text.{Bytes, is_utf8}
use harmonic.Path.{FilePath, root_dir, cur_dir, parent_dir, normal, as_os_str}

abbrev attach : ℕ → List Bytes → List Bytes
attach b [] = (b ∷ []) ∷ []
attach b (piece ∷ pieces) = (b ∷ piece) ∷ pieces

-- The pieces between the separators: there is at least one.
unfoldable pub split : Bytes → List Bytes
split [] = [] ∷ []
split (b ∷ text) = let pieces = split text in if b == b'/' then [] ∷ pieces else attach b pieces

abbrev push_piece : Bytes → FilePath → FilePath
push_piece piece p =
    if bytes_eq piece []
    then p
    else if bytes_eq piece (b'.' ∷ [])
    then p
    else if bytes_eq piece (b'.' ∷ b'.' ∷ [])
    then parent_dir ∷ p
    else normal piece ∷ p

unfoldable pub components : List Bytes → FilePath
components [] = []
components (piece ∷ pieces) = push_piece piece (components pieces)

-- The pieces of a text that does not start with a separator.
abbrev pub relative : List Bytes → FilePath
relative [] = []
relative (piece ∷ pieces) =
    if bytes_eq piece (b'.' ∷ []) then cur_dir ∷ components pieces else components (piece ∷ pieces)

-- `PathBuf::from`
unfoldable pub from_text : Bytes → FilePath
unfolding split components
from_text [] = []
from_text (b ∷ text) =
    if b == b'/' then root_dir ∷ components (split text) else relative (split (b ∷ text))

unfoldable pub separated : FilePath → Bytes
separated [] = []
separated (c ∷ []) = as_os_str c
separated (c ∷ d ∷ p) = as_os_str c ++ b'/' ∷ separated (d ∷ p)

unfoldable pub to_text : FilePath → Bytes
unfolding separated
to_text (root_dir ∷ p) = b'/' ∷ separated p
to_text p = separated p

-- `Path::to_str`
unfoldable pub to_str : FilePath → Option Bytes
to_str p = if is_utf8 (to_text p) then some (to_text p) else none
