-- ===== src/State/Plan/Laws.antt =====
-- What `generate_sync_plan` of src/sync/state.rs plans.
use harmonic.Prelude.{true, ◌||◌}
use harmonic.Prelude.{Option, none, some, List, [], ◌∷◌, ◌++◌, ◌≡◌, refl, sym, ap, ap₂, ◌∙◌, arith}
use mathlib.Core.Path.{fun_ext}
use harmonic.Prelude.{◌⊎◌, inl, inr, Option-cases}
use harmonic.Text.{Bytes}
use harmonic.Path.{FilePath}
use harmonic.Path.Keys.{path_ord}
use harmonic.Path.Spelling.{to_str}
use harmonic.Error.{Outcome, ok, err, string_invalid}
use harmonic.Proto.{Timestamp, FileStatus, FileAction, TransferDirection, direction_i32}
use harmonic.BTree.{BTreeMap, keys, get, contains}
use harmonic.BTree.Laws.{IsSorted, is_some, is_refl, contains-keys, contains-append}
use harmonic.BTree.Laws.{collect_set-IsSorted, contains-collect_set}
use harmonic.State.{FileMetadata, SyncState}
use harmonic.State.Plan.{insert_remote, plan_action, plan_actions, plan_paths, generate_sync_plan}
use harmonic.State.Plan.Decisions.{
  last_named, or_else, get-insert_remote, insert_remote-IsSorted, Reason, Decided, decide-Decided,
}

-- An action for a path, with the reason for its direction.
pub record Planned (p : FilePath) (local : Option FileMetadata) (remote : Option FileStatus)
    (a : FileAction) : Type 0 where
  pub direction : TransferDirection
  pub latest : Timestamp
  pub spelled : to_str p ≡ some a.path
  pub direction_field : a.direction ≡ direction_i32 direction
  pub timestamp_field : a.timestamp_latest_modified ≡ some latest
  pub reason : Reason local remote direction latest

-- One action for each path, in the same order.
pub data Plans (local : FilePath → Option FileMetadata) (remote : FilePath → Option FileStatus)
    : List FilePath → List FileAction → Type 0 where
  no_paths : Plans local remote [] []
  next :
      (p : FilePath) (ps : List FilePath) (a : FileAction) (as' : List FileAction)
      → Planned p (local p) (remote p) a
      → Plans local remote ps as'
      → Plans local remote (p ∷ ps) (a ∷ as')

-- Either each path has its action, or some path is not UTF-8 and there is no plan.
abbrev pub PlansOrInvalid :
    (FilePath → Option FileMetadata)
    → (FilePath → Option FileStatus)
    → List FilePath
    → Outcome (List FileAction)
    → Type 0
PlansOrInvalid local remote paths plan =
    ((actions : List FileAction) × (plan ≡ ok actions) × Plans local remote paths actions)
    ⊎ ((p : FilePath) × (contains p paths ≡ true) × (to_str p ≡ none) × (plan ≡ err string_invalid))

module _ (state_now : SyncState) (tree : BTreeMap FilePath FileStatus) where
  abbrev local_at : FilePath → Option FileMetadata
  local_at p = get p state_now.tree

  abbrev remote_at : FilePath → Option FileStatus
  remote_at p = get p tree

  plan_action-none :
      (p : FilePath)
      → Decided (local_at p) (remote_at p)
      → to_str p ≡ none
      → plan_action p (local_at p) (remote_at p) ≡ err string_invalid
  unfolding plan_action
  plan_action-none p d e = rw (d.returns) (rw e refl)

  plan_action-some :
      (p : FilePath) (text : Bytes) (d : Decided (local_at p) (remote_at p))
      → to_str p ≡ some text
      → plan_action p (local_at p) (remote_at p)
        ≡ ok (record {
          path = text;
          direction = direction_i32 d.direction;
          timestamp_latest_modified = some d.latest;
        })
  unfolding plan_action
  plan_action-some p text d e = rw (d.returns) (rw e refl)

  plan_actions-PlansOrInvalid :
      (paths : List FilePath)
      → ((p : FilePath)
          → contains p paths ≡ true
          → (is_some (local_at p) || is_some (remote_at p)) ≡ true)
      → PlansOrInvalid local_at remote_at paths (plan_actions state_now tree paths)
  unfolding plan_actions contains
  plan_actions-PlansOrInvalid [] present = inl ([], refl, no_paths)
  plan_actions-PlansOrInvalid (q ∷ paths) present = elim (Option-cases (to_str q)) [
    | inl unspelled ↦
        inr
          (q, ground (arith, is_refl q), unspelled, rw (plan_action-none q decided unspelled) refl)
    | inr (text, spelled) ↦
        elim (plan_actions-PlansOrInvalid paths (λ p c. present p (ground arith))) [
          | inl (actions, e, plans) ↦ inl (
            _,
            rw (plan_action-some q text decided spelled, e) refl,
            next q paths _ actions
                (record {
                  direction = decided.direction;
                  latest = decided.latest;
                  spelled = spelled;
                  direction_field = refl;
                  timestamp_field = refl;
                  reason = decided.reason;
                })
                plans,
          )
          | inr (p, listed, unspelled, e) ↦
              inr (p, ground arith, unspelled, rw (plan_action-some q text decided spelled, e) refl)
        ]
  ]
    where
      decided : Decided (local_at q) (remote_at q)
      decided = decide-Decided (local_at q) (remote_at q) (present q (ground (arith, is_refl q)))

or_else-none : (r : Option FileStatus) → or_else r none ≡ r
or_else-none none = refl
or_else-none (some r) = refl

remote_tree_lem :
    (remote_files : List FileStatus)
    → ◌≡◌ {A = FilePath → Option FileStatus}
        (λ p. get p (insert_remote remote_files []))
        (λ p. last_named p remote_files)
unfolding get
remote_tree_lem remote_files =
    fun_ext (λ p. get-insert_remote p remote_files [] ∙ or_else-none (last_named p remote_files))

-- What `generate_sync_plan` returns, with the paths that it covers.
pub record PlannedFor (state_now : SyncState) (remote_files : List FileStatus) : Type 0 where
  pub paths : List FilePath
  pub in_order : IsSorted paths
  pub covered :
      (p : FilePath)
      → contains p paths ≡ (is_some (get p state_now.tree) || is_some (last_named p remote_files))
  pub planned :
      PlansOrInvalid
        (λ p. get p state_now.tree)
        (λ p. last_named p remote_files)
        paths
        (generate_sync_plan state_now remote_files)

-- For a state whose tree is a map, with its keys in order, and any list of remote files, planning
-- does not panic. The paths that a side has, each once and in order, either all get one action, or
-- one of them is not UTF-8 and the result is the error for that. An action carries the path's text,
-- and a direction with its reason: a file that one side lacks goes to that side, of two files with
-- different hashes the strictly newer one goes to the other side, and files with the same hash, or
-- with different hashes and the same time, are skipped. Of the remote files with one path the last
-- one counts.
pub generate_sync_plan-PlannedFor :
    (state_now : SyncState) (remote_files : List FileStatus)
    → IsSorted (keys state_now.tree)
    → PlannedFor state_now remote_files
unfolding generate_sync_plan plan_paths keys
generate_sync_plan-PlannedFor state_now remote_files sorted = record {
  paths = paths;
  in_order = collect_set-IsSorted (keys state_now.tree ++ keys tree);
  covered = λ p. rw (sym (ap (λ f. f p) (remote_tree_lem remote_files))) (member p);
  planned =
      rw (sym (remote_tree_lem remote_files))
        (plan_actions-PlansOrInvalid state_now tree paths (λ p c. sym (member p) ∙ c));
}
  where
    tree : BTreeMap FilePath FileStatus
    tree = insert_remote remote_files []

    paths : List FilePath
    paths = plan_paths state_now tree

    member :
        (p : FilePath) → contains p paths ≡ (is_some (get p state_now.tree) || is_some (get p tree))
    member p =
        contains-collect_set p (keys state_now.tree ++ keys tree)
        ∙ contains-append p (keys state_now.tree) (keys tree)
        ∙ ap₂ ◌||◌ (contains-keys p state_now.tree sorted)
            (contains-keys p tree (insert_remote-IsSorted remote_files [] tt))
