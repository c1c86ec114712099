-- ===== src/Absolute/Safety.antt =====
-- `get_absolute_path` of src/sync/transfer.rs keeps a peer's path inside the synchronised directory.
use harmonic.Prelude.{true, false, ◌||◌, bytes_eq_refl, Bool-cases}
use harmonic.Prelude.{[], ◌∷◌, ◌++◌, ◌≡◌, refl, inl, inr, arith}
use harmonic.Path.{Component, FilePath, root_dir, cur_dir, parent_dir, normal, component_eq}
use harmonic.Path.{is_absolute, starts_with, append, join}
use harmonic.Error.{Outcome, ok, err, path_error}
use harmonic.Absolute.{get_absolute_path}

-- Names and `.`, none of which leads out of a directory.
abbrev pub IsInside : FilePath → Type 0
IsInside [] = Unit
IsInside (root_dir ∷ p) = ⊥
IsInside (parent_dir ∷ p) = ⊥
IsInside (cur_dir ∷ p) = IsInside p
IsInside (normal name ∷ p) = IsInside p

-- A relative path in which `..` stands only at the front.
abbrev pub IsClean : FilePath → Type 0
IsClean (parent_dir ∷ p) = IsClean p
IsClean p = IsInside p

component_eq_refl : (c : Component) → component_eq c c ≡ true
component_eq_refl root_dir = refl
component_eq_refl cur_dir = refl
component_eq_refl parent_dir = refl
component_eq_refl (normal name) = bytes_eq_refl name

starts_with-append : (base p : FilePath) → starts_with (base ++ p) base ≡ true
unfolding starts_with
starts_with-append [] p = refl
starts_with-append (c ∷ base) p = ground (arith, component_eq_refl c, starts_with-append base p)

-- A path of a result that is inside a directory.
record Inside (base p : FilePath) : Type 0 where
  rest : FilePath
  names : IsInside rest
  joined : p ≡ base ++ rest

append-Inside : (base p : FilePath) → IsInside p → Inside base (append base p)
unfolding append
append-Inside [] p h = record { rest = p; names = h; joined = refl }
append-Inside (c ∷ base) [] h = record { rest = []; names = tt; joined = refl }
append-Inside (c ∷ base) (root_dir ∷ p) h = absurd h
append-Inside (c ∷ base) (parent_dir ∷ p) h = absurd h
append-Inside (c ∷ base) (cur_dir ∷ p) h = record { rest = p; names = h; joined = refl }
append-Inside (c ∷ base) (normal name ∷ p) h = record {
  rest = normal name ∷ p;
  names = h;
  joined = refl;
}

-- What a cleaned path is, for the two tests on it.
data Cleaned : FilePath → Type 0 where
  escapes : (p : FilePath) → starts_with p (parent_dir ∷ []) ≡ true → Cleaned p
  stays :
      (p : FilePath)
      → starts_with p (parent_dir ∷ []) ≡ false
      → is_absolute p ≡ false
      → IsInside p
      → Cleaned p

Cleaned-cases : (p : FilePath) → IsClean p → Cleaned p
unfolding starts_with is_absolute
Cleaned-cases [] h = stays [] refl refl tt
Cleaned-cases (root_dir ∷ p) h = absurd h
Cleaned-cases (cur_dir ∷ p) h = stays (cur_dir ∷ p) refl refl h
Cleaned-cases (normal name ∷ p) h = stays (normal name ∷ p) refl refl h
Cleaned-cases (parent_dir ∷ p) h = escapes (parent_dir ∷ p) refl

-- The result for a path: an error that names it, exactly if it is absolute or leads out of the
-- directory, and else a path inside the directory.
pub data Resolved (clean : FilePath → FilePath) (path sync_path : FilePath)
    : Outcome FilePath → Type 0 where
  refused :
      (is_absolute path || starts_with (clean path) (parent_dir ∷ [])) ≡ true
      → Resolved clean path sync_path (err (path_error path))
  inside :
      (rest : FilePath)
      → (is_absolute path || starts_with (clean path) (parent_dir ∷ [])) ≡ false
      → IsInside rest
      → Resolved clean path sync_path (ok (sync_path ++ rest))

resolve :
    (clean : FilePath → FilePath) (path sync_path : FilePath)
    → is_absolute path ≡ false
    → (p : FilePath) → clean path ≡ p
    → Cleaned p
    → Resolved clean path sync_path (get_absolute_path clean path sync_path)
unfolding get_absolute_path join
resolve clean path sync_path relative p e (escapes _ up) =
    rw relative (rw e (rw up (refused (rw relative (rw e up)))))
resolve clean path sync_path relative p e (stays _ no_up no_root names) =
    let at = append-Inside sync_path p names in
    rw relative (
      rw e (
        rw no_up (
          rw no_root (
            rw (at.joined) (
              rw (starts_with-append sync_path at.rest)
                (inside at.rest (rw relative (rw e no_up)) at.names))))))

-- If `clean` leaves `..` only at the front of a relative path and keeps it relative, then
-- `get_absolute_path` refuses a path exactly if it is absolute or its cleaned form starts with `..`,
-- and then with the error that names it. Every other path becomes one that starts with the
-- synchronised directory and goes on with names and `.` alone; the last test never fails.
pub get_absolute_path-Resolved :
    (clean : FilePath → FilePath)
    → ((p : FilePath) → is_absolute p ≡ false → IsClean (clean p))
    → (path sync_path : FilePath)
    → Resolved clean path sync_path (get_absolute_path clean path sync_path)
unfolding get_absolute_path
get_absolute_path-Resolved clean cleans path sync_path = elim (Bool-cases (is_absolute path)) [
  | inl absolute ↦ rw absolute (refused (rw absolute refl))
  | inr relative ↦
      resolve clean path sync_path relative (clean path) refl
        (Cleaned-cases (clean path) (cleans path relative))
]
