-- ===== src/Writer/Target/Frame.antt =====
-- What the tasks of `delta_writer` leave alone.
use harmonic.Prelude.{Option-cases, ◌&&◌, Bool, true, false, if◌then◌else◌, none, List, []}
use harmonic.Prelude.{◌≡◌, ◌≢◌, refl, ap, ◌∙◌, inl, inr, Bool-cases}
use harmonic.Text.{Bytes}
use harmonic.Path.{FilePath}
use harmonic.Path.Keys.{path_ord}
use harmonic.Error.{Outcome, ok, err, panicked, unfinished}
use harmonic.Proto.{Timestamp, Delta}
use harmonic.BTree.{keys, get, insert}
use harmonic.BTree.Laws.{
  IsSorted, get-insert_other, not-is, get-remove, insert-IsSorted, remove-IsSorted,
}
use harmonic.Writer.{BlockCache, write_deltas}
use harmonic.Writer.Temporary.{tmp_file}
use harmonic.Writer.Target.{
  file_time, Files, Permits, refusal, partial_file, write_file, rename, set_file_mtime,
  delta_writer,
}

-- The files after a change that can touch the target and the temporary file alone.
pub record Framed (path : FilePath) (before after : Files) : Type 0 where
  pub sorted : IsSorted (keys after.contents)
  pub others :
      (q : FilePath) → q ≢ path → q ≢ tmp_file path → get q after.contents ≡ get q before.contents
  pub times : (q : FilePath) → q ≢ path → get q after.times ≡ get q before.times

module _ (permits : Permits) (path : FilePath) (ts : Timestamp) (disk : Files)
    (sorted : IsSorted (keys disk.contents)) where
  Framed-untouched : Framed path disk disk
  Framed-untouched = record { sorted = sorted; others = λ q h k. refl; times = λ q h. refl }

  Framed-left : (bytes : Bytes) → Framed path disk (write_file (tmp_file path) bytes disk)
  unfolding write_file
  Framed-left bytes = record {
    sorted = insert-IsSorted (tmp_file path) bytes disk.contents sorted;
    others = λ q h k. get-insert_other q (tmp_file path) bytes disk.contents k;
    times = λ q h. refl;
  }

  abbrev renamed : Bytes → Files
  renamed file =
      set_file_mtime permits path (file_time ts)
        (rename (tmp_file path) path file (write_file (tmp_file path) file disk))

  -- Setting the time of the target.
  set_file_mtime-Framed :
      (files : Files)
      → Framed path disk files
      → Framed path disk (set_file_mtime permits path (file_time ts) files)
  unfolding set_file_mtime
  set_file_mtime-Framed files framed = elim (Bool-cases (permits.sets_time path (file_time ts))) [
    | inr refused ↦ rw (refused, set_file_mtime) framed
    | inl sets ↦
        rw (sets, set_file_mtime)
          (record {
            sorted = framed.sorted;
            others = framed.others;
            times = λ q h. get-insert_other q path (file_time ts) files.times h ∙ framed.times q h;
          })
  ]

  Framed-renamed : (file : Bytes) → Framed path disk (renamed file)
  unfolding rename write_file
  Framed-renamed file = set_file_mtime-Framed _ (record {
    sorted =
        insert-IsSorted path file _
          (remove-IsSorted (tmp_file path) (insert (tmp_file path) file disk.contents) written);
    others = λ q h k.
        get-insert_other q path file _ h
        ∙ get-remove q (tmp_file path) (insert (tmp_file path) file disk.contents) written
        ∙ ap (λ b. if b then none else get q (insert (tmp_file path) file disk.contents))
            (not-is q (tmp_file path) k)
        ∙ get-insert_other q (tmp_file path) file disk.contents k;
    times = λ q h. refl;
  })
    where
      written : IsSorted (keys (insert (tmp_file path) file disk.contents))
      written = insert-IsSorted (tmp_file path) file disk.contents sorted

  Framed-outcome :
      (partial : Bytes) (renames : Bool) (o : Outcome Bytes)
      → Framed path disk (elim o [
        | ok file ↦ if renames then renamed file else write_file (tmp_file path) file disk
        | err e ↦ write_file (tmp_file path) partial disk
        | panicked ↦ write_file (tmp_file path) partial disk
        | unfinished ↦ write_file (tmp_file path) partial disk
      ])
  Framed-outcome partial true (ok file) = Framed-renamed file
  Framed-outcome partial false (ok file) = Framed-left file
  Framed-outcome partial renames (err e) = Framed-left partial
  Framed-outcome partial renames panicked = Framed-left partial
  Framed-outcome partial renames unfinished = Framed-left partial

  -- A task leaves all other files alone, whatever its target is and however it ends.
  pub delta_writer-Framed :
      (cache : BlockCache) (deltas : List Delta)
      → Framed path disk (delta_writer permits path cache ts deltas disk)
  unfolding delta_writer
  delta_writer-Framed cache deltas = elim (Bool-cases (permits.creates (tmp_file path))) [
    | inl created ↦ elim (Option-cases (refusal permits.takes deltas)) [
      | inr (written, stopped) ↦
          rw (created, stopped, delta_writer) (Framed-left (partial_file cache [] written))
      | inl all_taken ↦
          rw (created, all_taken, delta_writer)
            (Framed-outcome (partial_file cache [] deltas)
              (permits.flushes && permits.renames (tmp_file path) path)
              (write_deltas cache [] deltas))
    ]
    | inr refused ↦ rw (refused, delta_writer) Framed-untouched
  ]
