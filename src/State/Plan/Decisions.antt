-- ===== src/State/Plan/Decisions.antt =====
-- The direction that `generate_sync_plan` of src/sync/state.rs decides for one path, and the map
-- of the remote files.
use harmonic.Prelude.{true, ◌||◌, bytes_eq, bytes_eq_sound, bytes_eq-false}
use harmonic.Prelude.{Option, none, some, List, [], ◌∷◌, ◌≡◌, refl, arith}
use harmonic.Prelude.{◌≢◌, inl, inr, Bool-cases, if◌then◌else◌}
use harmonic.Path.{FilePath}
use harmonic.Path.Keys.{path_ord}
use harmonic.Path.Spelling.{from_text}
use harmonic.Error.{ok}
use harmonic.Proto.{Timestamp, default_timestamp, FileStatus}
use harmonic.Proto.{TransferDirection, skip, download, upload}
use harmonic.BTree.{BTreeMap, keys, get, insert, ◌is◌}
use harmonic.BTree.Laws.{IsSorted, is_some, get-insert}
use harmonic.BTree.Laws.{insert-IsSorted}
use harmonic.State.{FileMetadata, proto_timestamp_gt}
use harmonic.State.Timestamps.{gt_trichotomy}
use harmonic.State.Plan.{insert_remote, unwrap_or_default, decide}

-- The last of the files with a path.
abbrev pub or_else : Option FileStatus → Option FileStatus → Option FileStatus
or_else none second = second
or_else (some r) second = some r

unfoldable pub last_named : FilePath → List FileStatus → Option FileStatus
last_named p [] = none
last_named p (r ∷ rs) = or_else (last_named p rs) (if p is from_text r.path then some r else none)

pub get-insert_remote :
    (p : FilePath) (rs : List FileStatus) (tree : BTreeMap FilePath FileStatus)
    → get p (insert_remote rs tree) ≡ or_else (last_named p rs) (get p tree)
unfolding insert_remote last_named
get-insert_remote p [] tree = refl
get-insert_remote p (r ∷ rs) tree = ground (
  arith,
  get-insert_remote p rs (insert (from_text r.path) r tree),
  get-insert p (from_text r.path) r tree,
)

pub insert_remote-IsSorted :
    (rs : List FileStatus) (tree : BTreeMap FilePath FileStatus)
    → IsSorted (keys tree)
    → IsSorted (keys (insert_remote rs tree))
unfolding insert_remote
insert_remote-IsSorted [] tree h = h
insert_remote-IsSorted (r ∷ rs) tree h =
    insert_remote-IsSorted rs (insert (from_text r.path) r tree)
      (insert-IsSorted (from_text r.path) r tree h)

-- Why a direction is chosen: `local` is the server's file, `remote` the client's.
pub data Reason (local : Option FileMetadata) (remote : Option FileStatus)
    : TransferDirection → Timestamp → Type 0 where
  only_here :
      (l : FileMetadata)
      → local ≡ some l
      → remote ≡ none
      → Reason local remote download l.modified_ts
  only_there :
      (r : FileStatus)
      → local ≡ none
      → remote ≡ some r
      → Reason local remote upload (unwrap_or_default r.timestamp)
  newer_here :
      (l : FileMetadata) (r : FileStatus)
      → local ≡ some l
      → remote ≡ some r
      → r.hash ≢ l.hash
      → proto_timestamp_gt l.modified_ts (unwrap_or_default r.timestamp) ≡ true
      → Reason local remote download l.modified_ts
  newer_there :
      (l : FileMetadata) (r : FileStatus)
      → local ≡ some l
      → remote ≡ some r
      → r.hash ≢ l.hash
      → proto_timestamp_gt (unwrap_or_default r.timestamp) l.modified_ts ≡ true
      → Reason local remote upload (unwrap_or_default r.timestamp)
  same_hash :
      (l : FileMetadata) (r : FileStatus)
      → local ≡ some l
      → remote ≡ some r
      → r.hash ≡ l.hash
      → Reason local remote skip default_timestamp
  same_time :
      (l : FileMetadata) (r : FileStatus)
      → local ≡ some l
      → remote ≡ some r
      → r.hash ≢ l.hash
      → l.modified_ts ≡ unwrap_or_default r.timestamp
      → Reason local remote skip l.modified_ts

pub record Decided (local : Option FileMetadata) (remote : Option FileStatus) : Type 0 where
  pub direction : TransferDirection
  pub latest : Timestamp
  pub returns : decide local remote ≡ ok (direction, latest)
  pub reason : Reason local remote direction latest

-- The direction is decided for every file that either side has: a file that one side lacks goes to
-- that side; of two files with different hashes the strictly newer one goes to the other side; and
-- nothing is sent if the hashes agree, or if they differ and the times agree.
pub decide-Decided :
    (local : Option FileMetadata) (remote : Option FileStatus)
    → (is_some local || is_some remote) ≡ true
    → Decided local remote
unfolding decide
decide-Decided none none h = cc
decide-Decided (some l) none h = record {
  direction = download;
  latest = l.modified_ts;
  returns = refl;
  reason = only_here l refl refl;
}
decide-Decided none (some r) h = record {
  direction = upload;
  latest = unwrap_or_default r.timestamp;
  returns = refl;
  reason = only_there r refl refl;
}
decide-Decided (some l) (some r) h = elim (Bool-cases (bytes_eq r.hash l.hash)) [
  | inl same ↦ record {
    direction = skip;
    latest = default_timestamp;
    returns = rw same refl;
    reason = same_hash l r refl refl (bytes_eq_sound r.hash l.hash same);
  }
  | inr differ ↦
      elim (Bool-cases (proto_timestamp_gt l.modified_ts (unwrap_or_default r.timestamp))) [
        | inl here ↦ record {
          direction = download;
          latest = l.modified_ts;
          returns = rw differ (rw here refl);
          reason = newer_here l r refl refl (bytes_eq-false r.hash l.hash differ) here;
        }
        | inr not_here ↦
            elim (Bool-cases (proto_timestamp_gt (unwrap_or_default r.timestamp) l.modified_ts)) [
              | inl there ↦ record {
                direction = upload;
                latest = unwrap_or_default r.timestamp;
                returns = rw differ (rw not_here (rw there refl));
                reason = newer_there l r refl refl (bytes_eq-false r.hash l.hash differ) there;
              }
              | inr not_there ↦ record {
                direction = skip;
                latest = l.modified_ts;
                returns = rw differ (rw not_here (rw not_there refl));
                reason = same_time l r refl refl (bytes_eq-false r.hash l.hash differ) (
                    gt_trichotomy l.modified_ts (unwrap_or_default r.timestamp) not_here not_there);
              }
            ]
      ]
]
