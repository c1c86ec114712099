-- ===== src/Storage/Laws.antt =====
-- What is written is read.
use harmonic.Prelude.{true, Option, none, some, ◌≡◌, refl, ap, ◌∙◌}
use harmonic.Prelude.{Option-cases, inl, inr}
use harmonic.Text.{Bytes}
use harmonic.Path.{FilePath}
use harmonic.Path.Keys.{path_ord}
use harmonic.Error.{Outcome, ok, err, panicked, unfinished, ok-injective}
use harmonic.Io.{Io, done, failed, not_found, from_io}
use harmonic.BTree.{get, insert}
use harmonic.Storage.{Contents, Faults, Stored, then_on, exists, read, write}

pub read-get :
    (faults : Faults) (path : FilePath) (bytes : Bytes) (disk : Contents)
    → faults.reads path ≡ none
    → get path disk ≡ some bytes
    → (read faults path disk ≡ done bytes) × (exists path disk ≡ true)
unfolding read exists
read-get faults path bytes disk h e = (rw (h, read) (rw e refl), rw (e, exists) refl)

-- A run that returns: its first part did, and the rest on what that left.
pub then_on-ok {ℓ κ} :
    {A : Type ℓ} {B : Type κ} (first : Outcome A × Contents) (next : A → Stored B) (b : B)
    (after : Contents)
    → then_on first next ≡ (ok b, after)
    → (a : A) × (first.0 ≡ ok a) × (next a first.1 ≡ (ok b, after))
then_on-ok (ok a, disk) next b after e = (a, refl, e)
then_on-ok (err x, disk) next b after e = cc (ap (λ r. r.0) e)
then_on-ok (panicked, disk) next b after e = cc (ap (λ r. r.0) e)
then_on-ok (unfinished, disk) next b after e = cc (ap (λ r. r.0) e)

-- A write that returns has written.
pub write-ok :
    (faults : Faults) (path : FilePath) (bytes : Bytes) (disk : Contents) (done_write : Unit {0})
    → (write faults path bytes disk).0 ≡ ok done_write
    → (write faults path bytes disk).1 ≡ insert path bytes disk
unfolding write
write-ok faults path bytes disk u e = elim (Option-cases (faults.writes path)) [
  | inl fine ↦ rw (fine, write) refl
  | inr (fault, refused) ↦ let e' = rw (refused, write) at e in cc
]

-- A read, with `?`, that returns.
pub read-done :
    (faults : Faults) (path : FilePath) (disk : Contents) (bytes : Bytes)
    → from_io (read faults path disk) ≡ ok bytes
    → get path disk ≡ some bytes
unfolding read
read-done faults path disk bytes e = elim (Option-cases (faults.reads path)) [
  | inr (message, refused) ↦ let e' = rw (refused, read) at e in cc
  | inl fine ↦ elim (Option-cases (get path disk)) [
    | inl missing ↦ let e' = rw (fine, read) at e in let e'' = rw missing at e' in cc
    | inr (found, has) ↦
        let e' = rw (fine, read) at e in
        let e'' = rw has at e' in has ∙ ap some (ok-injective found bytes e'')
  ]
]

-- A read depends on its file alone.
pub read-same :
    (faults : Faults) (path : FilePath) (before after : Contents)
    → get path after ≡ get path before
    → read faults path after ≡ read faults path before
unfolding read
read-same faults path before after e =
    ap
      (λ (found : Option Bytes). elim (faults.reads path) as (λ x. Io Bytes) [
        | some message ↦ failed message
        | none ↦ elim found as (λ x. Io Bytes) [ none ↦ not_found | some bytes ↦ done bytes ]
      ])
      e
