-- ===== src/Storage.antt =====
-- Files that the program reads and writes whole, by `std::fs`, and what the disk refuses.
pub mod Laws
use harmonic.Prelude.{Bool, true, false, Option, none, some}
use harmonic.Text.{Bytes}
use harmonic.Path.{FilePath}
use harmonic.Path.Keys.{path_ord}
use harmonic.Error.{HarmonicError, Outcome, ok, err, panicked, unfinished}
use harmonic.Io.{Io, done, not_found, failed, from_io}
use harmonic.BTree.{BTreeMap, get, insert}

abbrev pub Contents : Type 0
Contents = BTreeMap FilePath Bytes

-- A write that fails, and what is in the file then, if it was opened.
pub record WriteFault : Type 0 where
  pub message : Bytes
  pub left : Option Bytes

pub record Faults : Type 0 where
  pub reads : FilePath → Option Bytes
  pub writes : FilePath → Option WriteFault

-- A disk that refuses nothing.
abbrev pub no_faults : Faults
no_faults = record { reads = λ p. none; writes = λ p. none }

-- Code on a disk: how it ends, and the disk that it leaves.
abbrev pub Stored {ℓ} : Type ℓ → Type ℓ
Stored A = Contents → Outcome A × Contents

infixl 5 ◌>>=◌ ◌>>◌
abbrev pub then_on {ℓ κ} :
    {A : Type ℓ} {B : Type κ} → Outcome A × Contents → (A → Stored B) → Outcome B × Contents
then_on (ok a, disk) next = next a disk
then_on (err e, disk) next = (err e, disk)
then_on (panicked, disk) next = (panicked, disk)
then_on (unfinished, disk) next = (unfinished, disk)

abbrev pub ◌>>=◌ {ℓ κ} : {A : Type ℓ} {B : Type κ} → Stored A → (A → Stored B) → Stored B
◌>>=◌ first next disk = then_on (first disk) next

abbrev pub ◌>>◌ {ℓ κ} : {A : Type ℓ} {B : Type κ} → Stored A → Stored B → Stored B
◌>>◌ first next disk = then_on (first disk) (λ _. next)

-- Code that leaves the disk alone.
abbrev pub lift {ℓ} : {A : Type ℓ} → Outcome A → Stored A
lift outcome disk = (outcome, disk)

-- `Path::exists`
unfoldable pub exists : FilePath → Contents → Bool
exists path disk = elim (get path disk) [ none ↦ false | some bytes ↦ true ]

-- `fs::read`
unfoldable pub read : Faults → FilePath → Contents → Io Bytes
read faults path disk = elim (faults.reads path) [
  | some message ↦ failed message
  | none ↦ elim (get path disk) [ none ↦ not_found | some bytes ↦ done bytes ]
]

abbrev pub leave : FilePath → Option Bytes → Contents → Contents
leave path none disk = disk
leave path (some bytes) disk = insert path bytes disk

-- `fs::write`, with `?`.
unfoldable pub write : Faults → FilePath → Bytes → Stored (Unit {0})
write faults path bytes disk = elim (faults.writes path) [
  | some fault ↦ (from_io (failed fault.message), leave path fault.left disk)
  | none ↦ (ok tt, insert path bytes disk)
]
