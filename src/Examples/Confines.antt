-- ===== src/Examples/Confines.antt =====
-- What a peer cannot make a server write, at concrete inputs.
use harmonic.Prelude.{ℕ, true, false, Bool, if◌then◌else◌, Bool-cases, inl, inr}
use harmonic.Prelude.{none, some, List, [], ◌∷◌, ◌++◌, ◌≡◌, refl, arith}
use harmonic.Text.{Bytes}
use harmonic.Path.{FilePath, root_dir, parent_dir, normal, cur_dir, is_absolute}
use harmonic.Path.Keys.{path_ord}
use harmonic.Io.{Io, done}
use harmonic.Absolute.{get_absolute_path}
use harmonic.Absolute.Safety.{IsClean, IsInside, Resolved, get_absolute_path-Resolved}
use harmonic.Proto.{literal}
use harmonic.BTree.{keys}
use harmonic.BTree.Laws.{IsSorted}
use harmonic.Writer.Target.{Files}
use harmonic.Handler.{Environment, handle_sync_request_stream}
use harmonic.Handler.Signed.{action_request}
use harmonic.Order.Lists.{lex}
use harmonic.Io.{failed}
use harmonic.Proto.{delta}
use harmonic.BTree.{get}
use harmonic.Prelude.{ap, ℕ}
use harmonic.Handler.Tasks.{tasks, AreApart, IsFinished, tasks-IsFinished}
use harmonic.Writer.Temporary.{has_file_name, tmp_file, tmp_name, stem_and_extension, last_dot}
use harmonic.Handler.{Writer}
use harmonic.Proto.{default_timestamp}
use harmonic.Handler.Confined.{IsWithin, handle_sync_request_stream-keeps}
use harmonic.Prelude.{Option, All}
use harmonic.Proto.{SyncRequest}
use harmonic.Examples.Transfers.{
  nines, new_text, file, directory, open_sink, server, action, permits,
}

only_names : FilePath → Bool
only_names [] = true
only_names (normal name ∷ p) = only_names p
only_names _ = false

-- Keeps a path of names, and takes any other for one that leads out.
plain : FilePath → FilePath
plain p = if only_names p then p else parent_dir ∷ []

names-IsInside : (p : FilePath) → only_names p ≡ true → IsInside p
unfolding only_names
names-IsInside [] h = tt
names-IsInside (normal name ∷ p) h = names-IsInside p h
names-IsInside (root_dir ∷ p) h = cc
names-IsInside (cur_dir ∷ p) h = cc
names-IsInside (parent_dir ∷ p) h = cc

IsClean-names : (p : FilePath) → IsInside p → IsClean p
IsClean-names [] h = h
IsClean-names (normal name ∷ p) h = h
IsClean-names (root_dir ∷ p) h = h
IsClean-names (cur_dir ∷ p) h = h
IsClean-names (parent_dir ∷ p) h = absurd h

plain-IsClean : (p : FilePath) → is_absolute p ≡ false → IsClean (plain p)
unfolding plain
plain-IsClean p relative = elim (Bool-cases (only_names p)) [
  | inl names ↦ rw (names, plain) (IsClean-names p (names-IsInside p names))
  | inr others ↦ rw (others, plain) tt
]

-- A server whose cleaning keeps to names.
abbrev careful : Environment
careful = record server { clean = plain }

-- What is no file is not read.
reads_files : FilePath → Io Bytes
reads_files [] = failed []
reads_files (a ∷ []) = failed []
reads_files (a ∷ b ∷ []) = failed []
reads_files (a ∷ b ∷ c ∷ p) = done nines

abbrev in_place : Environment
in_place = record careful { read = reads_files }

-- An upload with a delta, and one for a file outside.
abbrev attempts : List (Option SyncRequest)
attempts =
    some (action_request action)
    ∷ some (record {
      payload = some (delta (record { index = 0; instruction = some (literal (1 ∷ [])) }));
    })
    ∷ some (action_request (record action { path = b'/' ∷ b'e' ∷ [] }))
    ∷ []

abbrev beside : FilePath
beside = root_dir ∷ normal (b'e' ∷ []) ∷ []

abbrev two_files : Files
two_files = record { contents = (directory ++ file, nines) ∷ (beside, new_text) ∷ []; times = [] }

two_files-IsSorted : IsSorted (keys two_files.contents)
unfolding keys lex
two_files-IsSorted = ((refl, tt), (tt, tt))

first_name : FilePath → ℕ
first_name (root_dir ∷ normal (b ∷ name) ∷ p) = b
first_name _ = 0

is_outside : ¬ IsWithin in_place beside
unfolding first_name
is_outside (rest, e, names) = absurd (omega (arith, ap first_name e))

unread : in_place.read directory ≡ failed []
unfolding reads_files
unread = refl

handle_sync_request_stream-keeps_example :
    (get beside
        (tasks
          (λ w. permits)
          (handle_sync_request_stream in_place attempts open_sink).1.closed
          two_files).contents
      ≡ get beside two_files.contents)
    × (get beside
          (tasks
            (λ w. permits)
            (handle_sync_request_stream in_place attempts open_sink).1.closed
            two_files).times
        ≡ get beside two_files.times)
handle_sync_request_stream-keeps_example =
    handle_sync_request_stream-keeps in_place attempts open_sink [] (λ w. permits) two_files beside
      plain-IsClean unread two_files-IsSorted is_outside

get_absolute_path-Resolved_example :
    Resolved plain file directory (get_absolute_path plain file directory)
get_absolute_path-Resolved_example = get_absolute_path-Resolved plain plain-IsClean file directory

abbrev written : Bytes → FilePath → Writer
written name path = record {
  path = path;
  cache = record { blocks = [] };
  modified_ts = default_timestamp;
  accepted = record { index = 0; instruction = some (literal name) } ∷ [];
  accepts = none;
}

abbrev second : FilePath
second = directory ++ normal (b'g' ∷ []) ∷ []

abbrev two_writers : List Writer
two_writers = written (1 ∷ []) (directory ++ file) ∷ written (2 ∷ []) second ∷ []

both_named : All (λ w. has_file_name w.path ≡ true) two_writers
unfolding has_file_name
both_named = (refl, (refl, tt))

-- The first byte of the third component.
third_name : FilePath → ℕ
third_name (a ∷ b ∷ normal (x ∷ name) ∷ p) = x
third_name _ = 0

apart : AreApart two_writers
unfolding third_name tmp_file tmp_name stem_and_extension last_dot
apart = (
  (
    (
      (λ e. absurd (omega (arith, ap third_name e)), λ e. absurd (omega (arith, ap third_name e))),
      (λ e. absurd (omega (arith, ap third_name e)), λ e. absurd (omega (arith, ap third_name e))),
    ),
    tt,
  ),
  (tt, tt),
)

tasks-IsFinished_example :
    All
      (IsFinished (λ w. permits) two_files (tasks (λ w. permits) two_writers two_files))
      two_writers
tasks-IsFinished_example =
    tasks-IsFinished (λ w. permits) two_writers two_files both_named apart two_files-IsSorted
