-- ===== src/Writer/Target/Delivered.antt =====
-- What the task of `delta_writer` does to the files.
use harmonic.Prelude.{
  Option-cases, ◌&&◌, Bool, true, false, if◌then◌else◌, Option, none, some, List, [],
}
use harmonic.Prelude.{◌≡◌, ◌≢◌, refl, sym, ap, ◌∙◌, inl, inr, Bool-cases}
use harmonic.Text.{Bytes}
use harmonic.Path.{FilePath}
use harmonic.Path.Keys.{path_ord}
use harmonic.Error.{Outcome, ok, err, panicked, unfinished}
use harmonic.Proto.{Timestamp, Delta}
use harmonic.BTree.{keys, get, insert, remove}
use harmonic.BTree.Laws.{
  IsSorted, get-insert, get-insert_other, get-insert_same, not-is, get-remove, insert-IsSorted,
  is_refl,
}
use harmonic.Writer.{BlockCache, write_deltas}
use harmonic.Writer.Temporary.{tmp_file, has_file_name, tmp_file-differs}
use harmonic.Writer.Target.{
  FileTime, file_time, Files, Permits, refusal, partial_file, write_file, rename, set_file_mtime,
  delta_writer,
}

-- Whether the task reaches its end, and with which content.
unfoldable pub completes : Permits → FilePath → BlockCache → List Delta → Option Bytes
completes permits path cache deltas =
    if permits.creates (tmp_file path)
    then elim (refusal permits.takes deltas) [
      | some written ↦ none
      | none ↦ elim (write_deltas cache [] deltas) [
        | ok file ↦
            if permits.flushes && permits.renames (tmp_file path) path then some file else none
        | err e ↦ none
        | panicked ↦ none
        | unfinished ↦ none
      ]
    ]
    else none

-- A disk that refuses nothing to the task for a target.
abbrev pub Allows : Permits → FilePath → Type 0
Allows permits path =
    (permits.creates (tmp_file path) ≡ true)
    × (permits.takes ≡ none)
    × (permits.flushes ≡ true)
    × (permits.renames (tmp_file path) path ≡ true)

get-write_file :
    (q path : FilePath) (bytes : Bytes) (disk : Files)
    → q ≢ path
    → get q (write_file path bytes disk).contents ≡ get q disk.contents
unfolding write_file
get-write_file q path bytes disk h = get-insert_other q path bytes disk.contents h

get-rename :
    (q from to : FilePath) (bytes : Bytes) (disk : Files)
    → IsSorted (keys disk.contents)
    → q ≢ from
    → q ≢ to
    → get q (rename from to bytes disk).contents ≡ get q disk.contents
unfolding rename
get-rename q from to bytes disk sorted h k =
    get-insert q to bytes (remove from disk.contents)
    ∙ ap (λ b. if b then some bytes else get q (remove from disk.contents)) (not-is q to k)
    ∙ get-remove q from disk.contents sorted
    ∙ ap (λ b. if b then none else get q disk.contents) (not-is q from h)

-- The target after a task that ended with `some` content or with none.
abbrev pub target_after : Option Bytes → Option Bytes → Option Bytes
target_after (some file) before = some file
target_after none before = before

-- The time that is set on the target: the given one if the task got to its end and the disk takes
-- that time, else the one from before.
abbrev pub time_after :
    Permits → FilePath → Option Bytes → FileTime → Option FileTime → Option FileTime
time_after permits path (some file) ft before =
    if permits.sets_time path ft then some ft else before
time_after permits path none ft before = before

-- The files after the task: the target has the new content if the task got to its end, and is as
-- before if not; only the target and the temporary file may have changed; and
-- after the rename there is no temporary file.
pub record Delivered (permits : Permits) (path : FilePath) (ts : Timestamp) (disk : Files)
    (result : Option Bytes) (after : Files) : Type 0 where
  pub target : get path after.contents ≡ target_after result (get path disk.contents)
  pub time :
      get path after.times ≡ time_after permits path result (file_time ts) (get path disk.times)
  pub others :
      (q : FilePath) → q ≢ path → q ≢ tmp_file path → get q after.contents ≡ get q disk.contents
  pub cleaned : result ≢ none → get (tmp_file path) after.contents ≡ none

module _ (permits : Permits) (path : FilePath) (ts : Timestamp) (disk : Files)
    (named : has_file_name path ≡ true) (sorted : IsSorted (keys disk.contents)) where
  apart : path ≢ tmp_file path
  apart e = tmp_file-differs path named (sym e)

  Delivered-untouched : Delivered permits path ts disk none disk
  Delivered-untouched = record {
    target = refl;
    time = refl;
    others = λ q h k. refl;
    cleaned = λ h. absurd (h refl);
  }

  Delivered-left :
      (bytes : Bytes) → Delivered permits path ts disk none (write_file (tmp_file path) bytes disk)
  unfolding write_file
  Delivered-left bytes = record {
    target = get-write_file path (tmp_file path) bytes disk apart;
    time = refl;
    others = λ q h k. get-write_file q (tmp_file path) bytes disk k;
    cleaned = λ h. absurd (h refl);
  }

  abbrev renamed : Bytes → Files
  renamed file =
      set_file_mtime permits path (file_time ts)
        (rename (tmp_file path) path file (write_file (tmp_file path) file disk))

  abbrev moved : Bytes → Files
  moved file = rename (tmp_file path) path file (write_file (tmp_file path) file disk)

  mtime-contents :
      (files : Files) → (set_file_mtime permits path (file_time ts) files).contents ≡ files.contents
  unfolding set_file_mtime
  mtime-contents files = elim (Bool-cases (permits.sets_time path (file_time ts))) [
    | inl sets ↦ rw (sets, set_file_mtime) refl
    | inr refused ↦ rw (refused, set_file_mtime) refl
  ]

  mtime-time :
      (file : Bytes) (files : Files)
      → get path (set_file_mtime permits path (file_time ts) files).times
        ≡ time_after permits path (some file) (file_time ts) (get path files.times)
  unfolding set_file_mtime
  mtime-time file files = elim (Bool-cases (permits.sets_time path (file_time ts))) [
    | inl sets ↦ rw (sets, set_file_mtime) (get-insert_same path (file_time ts) files.times)
    | inr refused ↦ rw (refused, set_file_mtime) refl
  ]

  Delivered-renamed : (file : Bytes) → Delivered permits path ts disk (some file) (renamed file)
  unfolding rename write_file
  Delivered-renamed file = record {
    target =
        ap (get path) (mtime-contents (moved file))
        ∙ get-insert_same path file (remove (tmp_file path) written.contents);
    time = mtime-time file (moved file);
    others = λ q h k.
        ap (get q) (mtime-contents (moved file))
        ∙ get-rename q (tmp_file path) path file written written_sorted k h
        ∙ get-write_file q (tmp_file path) file disk k;
    cleaned = λ h.
        ap (get (tmp_file path)) (mtime-contents (moved file))
        ∙ get-insert (tmp_file path) path file _
        ∙ ap
            (λ b.
              if b
              then some file
              else get (tmp_file path) (remove (tmp_file path) written.contents))
            (not-is (tmp_file path) path (tmp_file-differs path named))
        ∙ get-remove (tmp_file path) (tmp_file path) written.contents written_sorted
        ∙ ap (λ b. if b then none else get (tmp_file path) written.contents)
            (is_refl (tmp_file path));
  }
    where
      written : Files
      written = write_file (tmp_file path) file disk

      written_sorted : IsSorted (keys (insert (tmp_file path) file disk.contents))
      written_sorted = insert-IsSorted (tmp_file path) file disk.contents sorted

  Delivered-outcome :
      (partial : Bytes) (renames : Bool) (o : Outcome Bytes)
      → Delivered permits path ts disk
          (elim o [
            | ok file ↦ if renames then some file else none
            | err e ↦ none
            | panicked ↦ none
            | unfinished ↦ none
          ])
          (elim o [
            | ok file ↦ if renames then renamed file else write_file (tmp_file path) file disk
            | err e ↦ write_file (tmp_file path) partial disk
            | panicked ↦ write_file (tmp_file path) partial disk
            | unfinished ↦ write_file (tmp_file path) partial disk
          ])
  Delivered-outcome partial true (ok file) = Delivered-renamed file
  Delivered-outcome partial false (ok file) = Delivered-left file
  Delivered-outcome partial renames (err e) = Delivered-left partial
  Delivered-outcome partial renames panicked = Delivered-left partial
  Delivered-outcome partial renames unfinished = Delivered-left partial

-- For a target that has a name, on a disk whose files are a map with its keys in order: if the
-- temporary file can be created, every delta can be applied and is taken by the disk, and the flush
-- and the rename succeed, then the target has the bytes that the deltas make of an empty file, and
-- there is no temporary file; its time is set to the given one, with the nanoseconds as a `u32`,
-- exactly if the disk takes that, and the failure to do so has no other effect. Otherwise the target's
-- content, and the time last set on it, are as before. No file other than these two changes.
pub delta_writer-Delivered :
    (permits : Permits) (path : FilePath) (cache : BlockCache) (ts : Timestamp)
    (deltas : List Delta) (disk : Files)
    → has_file_name path ≡ true
    → IsSorted (keys disk.contents)
    → Delivered permits path ts disk
        (completes permits path cache deltas)
        (delta_writer permits path cache ts deltas disk)
unfolding delta_writer completes
delta_writer-Delivered permits path cache ts deltas disk named sorted =
    elim (Bool-cases (permits.creates (tmp_file path))) [
      | inl created ↦ elim (Option-cases (refusal permits.takes deltas)) [
        | inr (written, stopped) ↦
            rw (created, stopped, delta_writer, completes)
              (Delivered-left permits path ts disk named sorted (partial_file cache [] written))
        | inl all_taken ↦
            rw (created, all_taken, delta_writer, completes)
              (Delivered-outcome permits path ts disk named sorted (partial_file cache [] deltas)
                (permits.flushes && permits.renames (tmp_file path) path)
                (write_deltas cache [] deltas))
      ]
      | inr refused ↦
          rw (refused, delta_writer, completes)
            (Delivered-untouched permits path ts disk named sorted)
    ]

completes-ok :
    (permits : Permits) (path : FilePath) (cache : BlockCache) (deltas : List Delta) (text : Bytes)
    → Allows permits path
    → write_deltas cache [] deltas ≡ ok text
    → completes permits path cache deltas ≡ some text
unfolding completes
completes-ok permits path cache deltas text (created, takes, flushed, renamed) wrote =
    rw (created, takes, completes) (rw wrote (rw (flushed, renamed) refl))

-- The content of the target where nothing fails.
pub get-delta_writer :
    (permits : Permits) (path : FilePath) (cache : BlockCache) (ts : Timestamp)
    (deltas : List Delta) (text : Bytes) (disk : Files)
    → write_deltas cache [] deltas ≡ ok text
    → has_file_name path ≡ true
    → IsSorted (keys disk.contents)
    → Allows permits path
    → get path (delta_writer permits path cache ts deltas disk).contents ≡ some text
get-delta_writer permits path cache ts deltas text disk wrote named sorted allowed =
    (delta_writer-Delivered permits path cache ts deltas disk named sorted).target
    ∙ ap (λ r. target_after r (get path disk.contents))
        (completes-ok permits path cache deltas text allowed wrote)
