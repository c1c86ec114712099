-- ===== src/State/Compare/Laws.antt =====
-- What `compare_states` of src/sync/state.rs reports.
use harmonic.Prelude.{Bool, true, false, ◌&&◌, ◌||◌, not, bytes_eq, bytes_eq_sound, bytes_eq-false}
use harmonic.Prelude.{Option, none, some, List, [], ◌∷◌, ◌++◌, ◌≡◌, refl, ap, ap₂, ◌∙◌, arith}
use harmonic.Prelude.{◌≢◌, ◌⊎◌, inl, inr, Bool-cases, if◌then◌else◌}
use harmonic.Text.{Bytes}
use harmonic.Path.{FilePath}
use harmonic.Path.Keys.{path_ord}
use harmonic.Error.{ok}
use harmonic.Proto.{Timestamp}
use harmonic.BTree.{keys, get, contains, ◌is◌}
use harmonic.BTree.Laws.{Above, IsSorted, is_some, contains-keys, contains-append, contains-Above}
use harmonic.BTree.Laws.{collect_set-IsSorted, contains-collect_set, is-eq, is_refl}
use harmonic.State.{
  FileMetadata, SyncState, ChangeType, added, removed, modified, Diff, proto_timestamp_gt,
}
use harmonic.State.Compare.{
  has_hidden_components, visible, modification, difference, differences, all_paths, compare_states,
}

-- The diff of a path in a list of diffs.
unfoldable pub find : FilePath → List Diff → Option Diff
find p [] = none
find p (d ∷ ds) = if p is d.path then some d else find p ds

unfoldable pub paths_of : List Diff → List FilePath
paths_of [] = []
paths_of (d ∷ ds) = d.path ∷ paths_of ds

abbrev pub hash_of : Option FileMetadata → Option Bytes
hash_of none = none
hash_of (some meta) = some meta.hash

abbrev pub metadata : Bytes → Timestamp → FileMetadata
metadata hash ts = record { hash = hash; modified_ts = ts }

-- What each kind of change says of the file before and now, and of the hash and the time reported.
abbrev pub Tells :
    ChangeType → Bytes → Timestamp → Option FileMetadata → Option FileMetadata → Type 0
Tells added hash ts before now = (before ≡ none) × (now ≡ some (metadata hash ts))
Tells removed hash ts before now = (before ≡ some (metadata hash ts)) × (now ≡ none)
Tells modified hash ts before now =
    (b : FileMetadata) × (n : FileMetadata) × (before ≡ some b)
    × (now ≡ some n)
    × (n.hash ≢ b.hash)
    × (((proto_timestamp_gt n.modified_ts b.modified_ts ≡ true) × (metadata hash ts ≡ n))
        ⊎ ((proto_timestamp_gt n.modified_ts b.modified_ts ≡ false) × (metadata hash ts ≡ b)))

-- No diff for a path: its hash did not change. A diff: it tells what happened to that path.
abbrev pub Reported : FilePath → Option FileMetadata → Option FileMetadata → Option Diff → Type 0
Reported p before now none = hash_of now ≡ hash_of before
Reported p before now (some d) = (d.path ≡ p) × Tells d.change d.hash d.modified_ts before now

-- What the `match` pushes for one path.
data Pushed (p : FilePath) (before now : Option FileMetadata) : List Diff → Type 0 where
  nothing : hash_of now ≡ hash_of before → Pushed p before now []
  one : (d : Diff) → Reported p before now (some d) → Pushed p before now (d ∷ [])

record Pushes (p : FilePath) (before now : Option FileMetadata) : Type 0 where
  diffs : List Diff
  returns : difference p now before ≡ ok diffs
  pushed : Pushed p before now diffs

modification-Tells :
    (p : FilePath) (n b : FileMetadata)
    → bytes_eq n.hash b.hash ≡ false
    → Reported p (some b) (some n) (some (modification p n b))
modification-Tells p n b e = elim (Bool-cases (proto_timestamp_gt n.modified_ts b.modified_ts)) [
  | inl newer ↦
      rw newer (refl, (b, n, refl, refl, bytes_eq-false n.hash b.hash e, inl (newer, refl)))
  | inr older ↦
      rw older (refl, (b, n, refl, refl, bytes_eq-false n.hash b.hash e, inr (older, refl)))
]

difference-Pushes :
    (p : FilePath) (before now : Option FileMetadata)
    → (is_some before || is_some now) ≡ true
    → Pushes p before now
unfolding difference
difference-Pushes p none none e = cc
difference-Pushes p none (some n) e = record {
  diffs = _;
  returns = refl;
  pushed = one _ (refl, (refl, refl));
}
difference-Pushes p (some b) none e = record {
  diffs = _;
  returns = refl;
  pushed = one _ (refl, (refl, refl));
}
difference-Pushes p (some b) (some n) e = elim (Bool-cases (bytes_eq n.hash b.hash)) [
  | inl same ↦ record {
    diffs = [];
    returns = rw same refl;
    pushed = nothing (ap some (bytes_eq_sound n.hash b.hash same));
  }
  | inr differs ↦ record {
    diffs = modification p n b ∷ [];
    returns = rw differs refl;
    pushed = one (modification p n b) (modification-Tells p n b differs);
  }
]

contains-visible :
    (p : FilePath) (ps : List FilePath)
    → contains p (visible ps) ≡ (not (has_hidden_components p) && contains p ps)
unfolding visible contains
contains-visible p [] = ground arith
contains-visible p (q ∷ ps) = ground (arith, contains-visible p ps, path_ord.eq_of_cmp p q)

or-left : (a b : Bool) → (a || b) ≡ false → a ≡ false
or-left a b e = ground arith

absent-hash : (x y : Option FileMetadata) → (is_some x || is_some y) ≡ false → hash_of y ≡ hash_of x
absent-hash none none e = refl
absent-hash none (some n) e = cc
absent-hash (some b) y e = cc

module _ (before_state now_state : SyncState) where
  abbrev before_at : FilePath → Option FileMetadata
  before_at p = get p before_state.tree

  abbrev now_at : FilePath → Option FileMetadata
  now_at p = get p now_state.tree

  -- The diffs of the paths of a sorted list.
  record Covers (paths : List FilePath) : Type 0 where
    diffs : List Diff
    returns : differences before_state now_state paths ≡ ok diffs
    above : (b : FilePath) → Above b paths → Above b (paths_of diffs)
    in_order : IsSorted (paths_of diffs)
    inside :
        (p : FilePath)
        → contains p paths ≡ true
        → Reported p (before_at p) (now_at p) (find p diffs)
    outside : (p : FilePath) → contains p paths ≡ false → find p diffs ≡ none

  Covers-cons :
      (q : FilePath) (paths : List FilePath) (pushed : List Diff)
      → difference q (now_at q) (before_at q) ≡ ok pushed
      → Pushed q (before_at q) (now_at q) pushed
      → Above q paths
      → Covers paths
      → Covers (q ∷ paths)
  unfolding differences find paths_of contains
  Covers-cons q paths _ e (nothing same) low rest = record {
    diffs = rest.diffs;
    returns = rw (e, rest.returns) refl;
    above = λ b h. rest.above b h.1;
    in_order = rest.in_order;
    inside = λ p c. elim (Bool-cases (p is q)) [
      | inl here ↦ rw (is-eq p q here) (rw (rest.outside q (contains-Above q paths low)) same)
      | inr there ↦ rest.inside p (ground arith)
    ];
    outside = λ p c. rest.outside p (ground arith);
  }
  Covers-cons q paths _ e (one d told) low rest = record {
    diffs = d ∷ rest.diffs;
    returns = rw (e, rest.returns) refl;
    above = λ b h. (rw (told.0) h.0, rest.above b h.1);
    in_order = (rw (told.0) (rest.above q low), rest.in_order);
    inside = λ p c. elim (Bool-cases (p is q)) [
      | inl here ↦ rw (is-eq p q here) (rw (ap (λ x. q is x) told.0 ∙ is_refl q) told)
      | inr there ↦ rw (ap (λ x. p is x) told.0 ∙ there) (rest.inside p (ground arith))
    ];
    outside = λ p c.
        rw (ap (λ x. p is x) told.0 ∙ or-left (p is q) (contains p paths) c)
          (rest.outside p (ground arith));
  }

  differences-Covers :
      (paths : List FilePath)
      → IsSorted paths
      → ((p : FilePath)
          → contains p paths ≡ true
          → (is_some (before_at p) || is_some (now_at p)) ≡ true)
      → Covers paths
  unfolding differences find paths_of contains
  differences-Covers [] sorted present = record {
    diffs = [];
    returns = refl;
    above = λ b h. tt;
    in_order = tt;
    inside = λ p c. cc;
    outside = λ p c. refl;
  }
  differences-Covers (q ∷ paths) sorted present =
      Covers-cons q paths pushes.diffs pushes.returns pushes.pushed sorted.0
        (differences-Covers paths sorted.1 (λ p c. present p (ground arith)))
    where
      pushes : Pushes q (before_at q) (now_at q)
      pushes = difference-Pushes q (before_at q) (now_at q) (present q (ground (arith, is_refl q)))

  contains-all_paths :
      (p : FilePath)
      → IsSorted (keys before_state.tree)
      → IsSorted (keys now_state.tree)
      → contains p (all_paths before_state now_state)
        ≡ (not (has_hidden_components p) && (is_some (before_at p) || is_some (now_at p)))
  unfolding all_paths
  contains-all_paths p sb sn =
      contains-collect_set p (visible (keys before_state.tree ++ keys now_state.tree))
      ∙ contains-visible p (keys before_state.tree ++ keys now_state.tree)
      ∙ ap (λ b. not (has_hidden_components p) && b)
          (contains-append p (keys before_state.tree) (keys now_state.tree)
            ∙ ap₂ ◌||◌ (contains-keys p before_state.tree sb) (contains-keys p now_state.tree sn))

-- What `compare_states` returns: the diffs in the order of their paths, at most one for each, of
-- the paths that are not hidden and whose hash differs.
pub record Compared (before_state now_state : SyncState) : Type 0 where
  pub diffs : List Diff
  pub returns : compare_states before_state now_state ≡ ok diffs
  pub in_order : IsSorted (paths_of diffs)
  pub hidden : (p : FilePath) → has_hidden_components p ≡ true → find p diffs ≡ none
  pub reported :
      (p : FilePath)
      → has_hidden_components p ≡ false
      → Reported p (get p before_state.tree) (get p now_state.tree) (find p diffs)

-- Two states whose trees are maps, with their keys in order, are compared without a panic. The
-- diffs come in the order of their paths, with at most one for a path, and none for a path with a
-- hidden component. A path without one has no diff exactly if its hash, or its absence, is the
-- same in both trees; otherwise the diff is an addition with the metadata of the new file, a removal
-- with those of the old one, or a modification with those of the file that is strictly newer, and
-- of the old one if neither is.
pub compare_states-Compared :
    (before_state now_state : SyncState)
    → IsSorted (keys before_state.tree)
    → IsSorted (keys now_state.tree)
    → Compared before_state now_state
unfolding compare_states all_paths
compare_states-Compared before_state now_state sb sn = record {
  diffs = covers.diffs;
  returns = covers.returns;
  in_order = covers.in_order;
  hidden = λ p h. covers.outside p (ground (arith, member p));
  reported = λ p h. elim (Bool-cases (contains p paths)) [
    | inl listed ↦ covers.inside p listed
    | inr absent ↦ rw (covers.outside p absent) (unseen p h absent)
  ];
}
  where
    paths : List FilePath
    paths = all_paths before_state now_state

    member :
        (p : FilePath)
        → contains p paths ≡ (
            not (has_hidden_components p)
            && (is_some (get p before_state.tree) || is_some (get p now_state.tree)))
    member p = contains-all_paths before_state now_state p sb sn

    covers : Covers before_state now_state paths
    covers =
        differences-Covers before_state now_state paths
          (collect_set-IsSorted (visible (keys before_state.tree ++ keys now_state.tree)))
          (λ p c. ground (arith, member p))

    unseen :
        (p : FilePath)
        → has_hidden_components p ≡ false
        → contains p paths ≡ false
        → hash_of (get p now_state.tree) ≡ hash_of (get p before_state.tree)
    unseen p h absent =
        absent-hash (get p before_state.tree) (get p now_state.tree) (ground (arith, member p))
