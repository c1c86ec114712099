-- ===== src/Handler/Tasks.antt =====
-- The tasks of several writers of src/utils/writer.rs on one disk.
use harmonic.Prelude.{true, List, [], ◌∷◌, All, ◌≡◌, ◌≢◌, refl, ap, ◌∙◌}
use harmonic.Path.{FilePath}
use harmonic.Path.Keys.{path_ord}
use harmonic.BTree.{keys, get}
use harmonic.BTree.Laws.{IsSorted}
use harmonic.Writer.Temporary.{tmp_file, has_file_name}
use harmonic.Writer.Target.{Files, Permits, delta_writer}
use harmonic.Writer.Target.Delivered.{completes, target_after, delta_writer-Delivered}
use harmonic.Writer.Target.Frame.{delta_writer-Framed}
use harmonic.Handler.{Writer}

-- The tasks of some writers, one after the other: each may be refused what it asks for.
unfoldable pub tasks : (Writer → Permits) → List Writer → Files → Files
tasks permits [] disk = disk
tasks permits (w ∷ ws) disk =
    tasks permits ws (delta_writer (permits w) w.path w.cache w.modified_ts w.accepted disk)

-- A path that is neither the target of a writer nor its temporary file.
abbrev pub IsApart : FilePath → Writer → Type 0
IsApart q w = (q ≢ w.path) × (q ≢ tmp_file w.path)

pub tasks-keep :
    (permits : Writer → Permits) (q : FilePath) (ws : List Writer) (disk : Files)
    → IsSorted (keys disk.contents)
    → All (IsApart q) ws
    → (get q (tasks permits ws disk).contents ≡ get q disk.contents)
      × (get q (tasks permits ws disk).times ≡ get q disk.times)
unfolding tasks
tasks-keep permits q [] disk sorted apart = (refl, refl)
tasks-keep permits q (w ∷ ws) disk sorted apart =
    let framed =
      delta_writer-Framed (permits w) w.path w.modified_ts disk sorted w.cache w.accepted in
    let rest = tasks-keep permits q ws _ framed.sorted apart.1 in
    (rest.0 ∙ framed.others q apart.0.0 apart.0.1, rest.1 ∙ framed.times q apart.0.0)

-- No two writers have a file in common: neither target is the other's target or temporary file.
abbrev pub AreApart : List Writer → Type 0
AreApart [] = Unit
AreApart (w ∷ ws) = All (λ v. IsApart w.path v × IsApart v.path w) ws × AreApart ws

-- The target of a writer as its task alone would leave it.
abbrev pub IsFinished : (Writer → Permits) → Files → Files → Writer → Type 0
IsFinished permits disk after w =
    get w.path after.contents
    ≡ target_after (completes (permits w) w.path w.cache w.accepted) (get w.path disk.contents)

heads :
    (w : Writer) (ws : List Writer)
    → All (λ v. IsApart w.path v × IsApart v.path w) ws
    → All (IsApart w.path) ws
heads w [] h = tt
heads w (v ∷ ws) h = (h.0.0, heads w ws h.1)

-- What the tasks after the first leave is what they would leave without it.
IsFinished-later :
    (permits : Writer → Permits) (disk next after : Files) (w : Writer) (ws : List Writer)
    → ((q : FilePath) → IsApart q w → get q next.contents ≡ get q disk.contents)
    → All (λ v. IsApart w.path v × IsApart v.path w) ws
    → All (IsFinished permits next after) ws
    → All (IsFinished permits disk after) ws
IsFinished-later permits disk next after w [] same apart h = tt
IsFinished-later permits disk next after w (v ∷ ws) same apart h = (
  h.0 ∙ ap (target_after (completes (permits v) v.path v.cache v.accepted)) (same v.path apart.0.1),
  IsFinished-later permits disk next after w ws same apart.1 h.1,
)

-- Let the targets of some writers end in names, and let no target be the target or the temporary file
-- of another. When their tasks run one after the other, in whatever order, and whatever the disk
-- refuses to some of them, each leaves its target as it would have alone: with the bytes of its deltas
-- if it gets to its end, and else as it was. The disk's files are a map with its keys in order.
pub tasks-IsFinished :
    (permits : Writer → Permits) (ws : List Writer) (disk : Files)
    → All (λ w. has_file_name w.path ≡ true) ws
    → AreApart ws
    → IsSorted (keys disk.contents)
    → All (IsFinished permits disk (tasks permits ws disk)) ws
unfolding tasks
tasks-IsFinished permits [] disk named apart sorted = tt
tasks-IsFinished permits (w ∷ ws) disk named apart sorted =
    let next = delta_writer (permits w) w.path w.cache w.modified_ts w.accepted disk in
    let framed =
      delta_writer-Framed (permits w) w.path w.modified_ts disk sorted w.cache w.accepted in
    let delivered =
      delta_writer-Delivered (permits w) w.path w.cache w.modified_ts w.accepted disk named.0
        sorted in
    (
      (tasks-keep permits w.path ws next framed.sorted (heads w ws apart.0)).0 ∙ delivered.target,
      IsFinished-later permits disk next (tasks permits ws next) w ws
          (λ q h. framed.others q h.0 h.1) apart.0
          (tasks-IsFinished permits ws next named.1 apart.1 framed.sorted),
    )
