-- ===== src/Writer/Target.antt =====
-- The task that `delta_writer` of src/utils/writer.rs spawns, on the files of a disk: it writes a
-- temporary file, renames it to the target and sets the target's time.
pub mod Delivered
pub mod Frame
use harmonic.Prelude.{
  ℕ, ◌-◌, ◌%◌, ◌^◌, Bool, ◌&&◌, ltb, if◌then◌else◌, Option, none, some, List, [], ◌∷◌, length, take,
}
use harmonic.Prelude.Int.{ℤ, pos, negsuc}
use harmonic.Text.{Bytes}
use harmonic.Path.{FilePath}
use harmonic.Path.Keys.{path_ord}
use harmonic.Error.{Outcome, ok, err, panicked, unfinished}
use harmonic.Proto.{Timestamp, Delta}
use harmonic.BTree.{BTreeMap, get, insert, remove}
use harmonic.Writer.{BlockCache, write_delta, write_deltas}
use harmonic.Writer.Temporary.{tmp_file}

-- `FileTime::from_unix_time` takes the nanoseconds as a `u32`.
pub record FileTime : Type 0 where
  pub seconds : ℤ
  pub nanos : ℕ

-- `as u32`
abbrev pub as_u32 : ℤ → ℕ
as_u32 (pos n) = n % 2 ^ 32
as_u32 (negsuc n) = 2 ^ 32 - 1 - n % 2 ^ 32

unfoldable pub file_time : Timestamp → FileTime
file_time ts = record { seconds = ts.seconds; nanos = as_u32 ts.nanos }

-- The files, and the times that `set_file_mtime` has set; what a write does to a time is left out.
pub record Files : Type 0 where
  pub contents : BTreeMap FilePath Bytes
  pub times : BTreeMap FilePath FileTime

-- What the disk allows: creating a file; the number of deltas that it takes, if it refuses one; the
-- flush; the rename at the end; and setting a time, such as one whose nanoseconds are in range.
pub record Permits : Type 0 where
  pub creates : FilePath → Bool
  pub takes : Option ℕ
  pub flushes : Bool
  pub renames : FilePath → FilePath → Bool
  pub sets_time : FilePath → FileTime → Bool

-- The deltas that are written before the disk refuses one.
abbrev pub refusal : Option ℕ → List Delta → Option (List Delta)
refusal none deltas = none
refusal (some n) deltas = if ltb n (length deltas) then some (take n deltas) else none

-- The temporary file where the loop over the deltas is left early.
unfoldable pub partial_file : BlockCache → Bytes → List Delta → Bytes
partial_file cache file [] = file
partial_file cache file (d ∷ deltas) = elim (write_delta cache file d) [
  | ok file' ↦ partial_file cache file' deltas
  | err e ↦ file
  | panicked ↦ file
  | unfinished ↦ file
]

unfoldable pub write_file : FilePath → Bytes → Files → Files
write_file path bytes disk = record disk { contents = insert path bytes disk.contents }

-- `fs::rename` of a file with the content `bytes`.
unfoldable pub rename : FilePath → FilePath → Bytes → Files → Files
rename from to bytes disk = record disk { contents = insert to bytes (remove from disk.contents) }

-- The call that is not waited for, once it has run: its error is dropped.
unfoldable pub set_file_mtime : Permits → FilePath → FileTime → Files → Files
set_file_mtime permits path ft disk =
    if permits.sets_time path ft then record disk { times = insert path ft disk.times } else disk

-- The files after the task, once its channel is closed: `deltas` are those that came through.
unfoldable pub delta_writer :
    Permits → FilePath → BlockCache → Timestamp → List Delta → Files → Files
delta_writer permits path cache modified_ts deltas disk =
    let tmp = tmp_file path in
    let left = write_file tmp (partial_file cache [] deltas) disk in
    if permits.creates tmp
    then elim (refusal permits.takes deltas) [
      | some written ↦ write_file tmp (partial_file cache [] written) disk
      | none ↦ elim (write_deltas cache [] deltas) [
        | ok file ↦
            if permits.flushes && permits.renames tmp path
            then set_file_mtime permits path (file_time modified_ts)
                (rename tmp path file (write_file tmp file disk))
            else write_file tmp file disk
        | err e ↦ left
        | panicked ↦ left
        | unfinished ↦ left
      ]
    ]
    else disk
