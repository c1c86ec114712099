-- ===== src/Handler/Confined.antt =====
-- What a peer can make the loop of src/bin/server.rs write, by its writers and their tasks.
use harmonic.Prelude.{false, Option, none, List, [], ◌∷◌, ◌++◌, All, append-nil, ◌≡◌, ◌≢◌, ap, ◌∙◌}
use harmonic.Text.{Bytes}
use harmonic.Path.{Component, FilePath, root_dir, cur_dir, parent_dir, normal, is_absolute}
use harmonic.Path.Keys.{path_ord}
use harmonic.Error.{Outcome, ok}
use harmonic.Io.{failed}
use harmonic.Absolute.Safety.{
  IsClean, IsInside, Resolved, refused, inside, get_absolute_path-Resolved,
}
use harmonic.Proto.{SyncRequest}
use harmonic.Sink.{Sink}
use harmonic.Signatures.{or_empty}
use harmonic.BTree.{keys, get}
use harmonic.BTree.Laws.{IsSorted}
use harmonic.Writer.Temporary.{tmp_file, tmp_file-append}
use harmonic.Writer.Target.{Files, Permits}
use harmonic.Handler.{Environment, Writer, handle_sync_request_stream}
use harmonic.Handler.Tasks.{IsApart, tasks, tasks-keep}
use harmonic.Handler.Writers.{stream-Confined}

-- A path in the synchronised directory: behind it, names and `.` alone.
abbrev pub IsWithin : Environment → FilePath → Type 0
IsWithin env path = (rest : FilePath) × (path ≡ env.config.sync_path ++ rest) × IsInside rest

-- A path below the synchronised directory, which is not the directory itself.
abbrev pub IsBelow : Environment → FilePath → Type 0
IsBelow env path =
    (c : Component) × (rest : FilePath) × (path ≡ env.config.sync_path ++ c ∷ rest)
    × IsInside (c ∷ rest)

Resolved-IsWithin :
    (env : Environment) (path abs_path : FilePath) (outcome : Outcome FilePath)
    → Resolved env.clean path env.config.sync_path outcome
    → outcome ≡ ok abs_path
    → IsWithin env abs_path
Resolved-IsWithin env path abs_path _ (refused bad) e = cc
Resolved-IsWithin env path abs_path _ (inside rest good names) e = (rest, cc, names)

-- Whatever a client sends on a stream, in whatever order, and however the run of the server's loop
-- ends: no writer stays open, and each writer that was closed was for a path in the
-- synchronised directory, behind which there are names and `.` alone. Cleaning a relative
-- path is to keep it relative, with `..` only at its front.
pub handle_sync_request_stream-Confined :
    (env : Environment) (requests : List (Option SyncRequest)) (tx : Sink)
    → ((p : FilePath) → is_absolute p ≡ false → IsClean (env.clean p))
    → ((handle_sync_request_stream env requests tx).1.writer_tx ≡ none)
      × All (λ w. IsWithin env w.path) (handle_sync_request_stream env requests tx).1.closed
handle_sync_request_stream-Confined env requests tx cleans =
    stream-Confined env (IsWithin env) requests tx (λ p abs_path text resolves holds.
      Resolved-IsWithin env p abs_path _
        (get_absolute_path-Resolved env.clean cleans p env.config.sync_path) resolves)

-- A path that is not the directory's, for the directory is not read.
IsWithin-IsBelow :
    (env : Environment) (path : FilePath) (text message : Bytes)
    → env.read env.config.sync_path ≡ failed message
    → or_empty (env.read path) ≡ ok text
    → (rest : FilePath) → path ≡ env.config.sync_path ++ rest
    → IsInside rest
    → IsBelow env path
IsWithin-IsBelow env path text message directory holds [] at names =
    let itself = at ∙ append-nil env.config.sync_path in
    cc (ap or_empty (ap env.read itself ∙ directory), holds)
IsWithin-IsBelow env path text message directory holds (c ∷ rest) at names = (c, rest, at, names)

tmp_file-IsInside : (p : FilePath) → IsInside p → IsInside (tmp_file p)
unfolding tmp_file
tmp_file-IsInside [] h = tt
tmp_file-IsInside (root_dir ∷ p) h = absurd h
tmp_file-IsInside (parent_dir ∷ p) h = absurd h
tmp_file-IsInside (cur_dir ∷ []) h = tt
tmp_file-IsInside (normal name ∷ []) h = tt
tmp_file-IsInside (cur_dir ∷ d ∷ p) h = tmp_file-IsInside (d ∷ p) h
tmp_file-IsInside (normal name ∷ d ∷ p) h = tmp_file-IsInside (d ∷ p) h

module _ (env : Environment) (q : FilePath) (outside : ¬ IsWithin env q) where
  IsBelow-IsApart : (path : FilePath) → IsBelow env path → (q ≢ path) × (q ≢ tmp_file path)
  IsBelow-IsApart path (c, rest, at, names) = (
    λ e. outside (c ∷ rest, e ∙ at, names),
    λ e. outside (
      tmp_file (c ∷ rest),
      e ∙ ap tmp_file at ∙ tmp_file-append env.config.sync_path c rest,
      tmp_file-IsInside (c ∷ rest) names,
    ),
  )

  IsBelow-IsApart-All : (ws : List Writer) → All (λ w. IsBelow env w.path) ws → All (IsApart q) ws
  IsBelow-IsApart-All [] below = tt
  IsBelow-IsApart-All (w ∷ ws) below =
      (IsBelow-IsApart w.path below.0, IsBelow-IsApart-All ws below.1)

-- Let the synchronised directory be there, so that to read it as a file fails, and not for its
-- absence. Whatever a client sends on a stream, in whatever order, and however the run of the server's loop
-- and the tasks of its writers end: a file outside that directory has the content and the
-- time that it had, the temporary files included. Cleaning a relative path is to keep it relative,
-- with `..` only at its front, and the disk's files are a map with its keys in order.
pub handle_sync_request_stream-keeps :
    (env : Environment) (requests : List (Option SyncRequest)) (tx : Sink) (message : Bytes)
    (permits : Writer → Permits) (disk : Files) (q : FilePath)
    → ((p : FilePath) → is_absolute p ≡ false → IsClean (env.clean p))
    → env.read env.config.sync_path ≡ failed message
    → IsSorted (keys disk.contents)
    → ¬ IsWithin env q
    → (get q (tasks permits (handle_sync_request_stream env requests tx).1.closed disk).contents
        ≡ get q disk.contents)
      × (get q (tasks permits (handle_sync_request_stream env requests tx).1.closed disk).times
          ≡ get q disk.times)
handle_sync_request_stream-keeps env requests tx message permits disk q cleans directory sorted
      outside =
    tasks-keep permits q (handle_sync_request_stream env requests tx).1.closed disk sorted (
      IsBelow-IsApart-All env q outside (handle_sync_request_stream env requests tx).1.closed
        (stream-Confined env (IsBelow env) requests tx (λ p abs_path text resolves holds.
          let (rest, at, names) =
            Resolved-IsWithin env p abs_path _
              (get_absolute_path-Resolved env.clean cleans p env.config.sync_path) resolves in
          IsWithin-IsBelow env abs_path text message directory holds rest at names)).1)
