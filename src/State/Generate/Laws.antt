-- ===== src/State/Generate/Laws.antt =====
-- What `generate_state` of src/sync/state.rs records.
use mathlib.Core.Option.{some-injective}
use harmonic.Prelude.{Bool, true, false, Option, some, List, [], ◌∷◌}
use harmonic.Prelude.{◌≡◌, sym, ap, ◌∙◌, ◌⊎◌, inl, inr, Bool-cases, arith, if◌then◌else◌}
use harmonic.Prelude.Int.{ℤ}
use harmonic.Text.{Bytes}
use harmonic.Path.{FilePath, strip_prefix}
use harmonic.Path.Keys.{path_ord}
use harmonic.Error.{ok, >>=-eq-ok, ok-injective}
use harmonic.BTree.{BTreeMap, keys, get, insert, contains, ◌is◌}
use harmonic.BTree.Laws.{IsSorted, is_some, is-eq, is_refl, get-insert, insert-IsSorted}
use harmonic.State.{FileMetadata, SyncState}
use harmonic.State.Generate.{
  Disk, Entry, file_metadata, get_relative_path, insert_files, wanted_files, generate_state,
}

relative-strip :
    (file root p : FilePath) → get_relative_path file root ≡ ok p → strip_prefix file root ≡ some p
unfolding get_relative_path
relative-strip file root p e = ground arith

module _ (blake3 : Bytes → Bytes) (disk : Disk) (root : FilePath) where
  -- A file of the list whose path below the root is `p` and whose metadata are `m`.
  pub record Source (files : List FilePath) (p : FilePath) (m : FileMetadata) : Type 0 where
    pub file : FilePath
    pub listed : contains file files ≡ true
    pub below : strip_prefix file root ≡ some p
    pub read : file_metadata blake3 disk file ≡ ok m

  record Inserted (files : List FilePath) (tree tree' : BTreeMap FilePath FileMetadata)
      : Type 0 where
    sorted : IsSorted (keys tree) → IsSorted (keys tree')
    sound :
        (p : FilePath) (m : FileMetadata)
        → get p tree' ≡ some m
        → (get p tree ≡ some m) ⊎ Source files p m
    keeps : (p : FilePath) → is_some (get p tree) ≡ true → is_some (get p tree') ≡ true
    complete :
        (file : FilePath)
        → contains file files ≡ true
        → (p : FilePath) × (strip_prefix file root ≡ some p) × (is_some (get p tree') ≡ true)

  Source-later :
      (f : FilePath) (files : List FilePath) (p : FilePath) (m : FileMetadata)
      → Source files p m
      → Source (f ∷ files) p m
  unfolding contains
  Source-later f files p m s = record {
    file = s.file;
    listed = ground (arith, s.listed);
    below = s.below;
    read = s.read;
  }

  Inserted-cons :
      (f : FilePath) (files : List FilePath) (p' : FilePath) (m' : FileMetadata)
      (tree tree' : BTreeMap FilePath FileMetadata)
      → get_relative_path f root ≡ ok p'
      → file_metadata blake3 disk f ≡ ok m'
      → Inserted files (insert p' m' tree) tree'
      → Inserted (f ∷ files) tree tree'
  unfolding contains
  Inserted-cons f files p' m' tree tree' ep em rest = record {
    sorted = λ h. rest.sorted (insert-IsSorted p' m' tree h);
    sound = λ p m h. elim (rest.sound p m h) [
      | inr s ↦ inr (Source-later f files p m s)
      | inl old ↦ elim (Bool-cases (p is p')) [
        | inl here ↦ inr (record {
          file = f;
          listed = ground (arith, is_refl f);
          below = relative-strip f root p' ep ∙ ap some (sym (is-eq p p' here));
          read = em ∙ ap ok (some-injective m' m (sym (hit p here) ∙ old));
        })
        | inr there ↦ inl (sym (miss p there) ∙ old)
      ]
    ];
    keeps = λ p h. rest.keeps p (kept p h);
    complete = λ file c. elim (Bool-cases (file is f)) [
      | inl here ↦ (
        p',
        ap (λ x. strip_prefix x root) (is-eq file f here) ∙ relative-strip f root p' ep,
        rest.keeps p' (ap is_some (hit p' (is_refl p'))),
      )
      | inr there ↦ rest.complete file (ground arith)
    ];
  }
    where
      hit : (p : FilePath) → (p is p') ≡ true → get p (insert p' m' tree) ≡ some m'
      hit p here = get-insert p p' m' tree ∙ ap (λ b. if b then some m' else get p tree) here

      miss : (p : FilePath) → (p is p') ≡ false → get p (insert p' m' tree) ≡ get p tree
      miss p there = get-insert p p' m' tree ∙ ap (λ b. if b then some m' else get p tree) there

      kept :
          (p : FilePath) → is_some (get p tree) ≡ true → is_some (get p (insert p' m' tree)) ≡ true
      kept p h = elim (Bool-cases (p is p')) [
        | inl here ↦ ap is_some (hit p here)
        | inr there ↦ ap is_some (miss p there) ∙ h
      ]

  insert_files-Inserted :
      (files : List FilePath) (tree tree' : BTreeMap FilePath FileMetadata)
      → insert_files blake3 disk root files tree ≡ ok tree'
      → Inserted files tree tree'
  unfolding insert_files contains
  insert_files-Inserted [] tree tree' e =
      let same = ok-injective tree tree' e in
      record {
        sorted = λ h. rw (sym same) h;
        sound = λ p m h. inl (rw same h);
        keeps = λ p h. rw (sym same) h;
        complete = λ file c. cc;
      }
  insert_files-Inserted (f ∷ files) tree tree' e =
      let (p', ep, e1) = >>=-eq-ok (get_relative_path f root) _ e in
      let (m', em, e2) = >>=-eq-ok (file_metadata blake3 disk f) _ e1 in
      Inserted-cons f files p' m' tree tree' ep em
        (insert_files-Inserted files (insert p' m' tree) tree' e2)

-- A state generated from the files of a list: the tree is a map with its keys in order, each entry
-- comes from a file, and each file has an entry.
pub record Generated (blake3 : Bytes → Bytes) (disk : Disk) (root : FilePath)
    (files : List FilePath) (state : SyncState) : Type 0 where
  pub sorted : IsSorted (keys state.tree)
  pub sound :
      (p : FilePath) (m : FileMetadata)
      → get p state.tree ≡ some m
      → Source blake3 disk root files p m
  pub complete :
      (file : FilePath)
      → contains file files ≡ true
      → (p : FilePath) × (strip_prefix file root ≡ some p) × (is_some (get p state.tree) ≡ true)

Generated-tree :
    (blake3 : Bytes → Bytes) (disk : Disk) (root : FilePath) (files : List FilePath)
    (tree : BTreeMap FilePath FileMetadata) (state : SyncState)
    → tree ≡ state.tree
    → Inserted blake3 disk root files [] tree
    → Generated blake3 disk root files state
unfolding keys get
Generated-tree blake3 disk root files tree state same inserted = record {
  sorted = rw (sym same) (inserted.sorted tt);
  sound = λ p m h. elim (inserted.sound p m (ap (get p) same ∙ h)) [ inl old ↦ cc | inr s ↦ s ];
  complete = λ file c.
      let (p, below, there) = inserted.complete file c in
      (p, below, ap (λ t. is_some (get p t)) (sym same) ∙ there);
}

-- A state that `generate_state` returns has a tree with its keys in order. Each entry is the path
-- below the root and the metadata of a file that the filters let through, and each such file has
-- an entry.
pub generate_state-Generated :
    (blake3 : Bytes → Bytes) (disk : Disk) (walk : FilePath → List (Option Entry)) (now : ℤ)
    (root : FilePath) (ignore_hidden : Bool) (state : SyncState)
    → generate_state blake3 disk walk now root ignore_hidden ≡ ok state
    → Generated blake3 disk root (wanted_files ignore_hidden (walk root)) state
unfolding generate_state
generate_state-Generated blake3 disk walk now root ignore_hidden state e =
    let (tree, et, es) =
      >>=-eq-ok (insert_files blake3 disk root (wanted_files ignore_hidden (walk root)) []) _ e in
    Generated-tree blake3 disk root (wanted_files ignore_hidden (walk root)) tree state
      (ap (λ s. s.tree) (ok-injective _ state es))
      (insert_files-Inserted blake3 disk root (wanted_files ignore_hidden (walk root)) [] tree et)
