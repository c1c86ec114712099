-- ===== src/Client/Sync/Saves.antt =====
-- What a run of src/bin/client.rs hands on to the next one.
use harmonic.Prelude.{true, List, ◌≡◌, sym, ap, ◌∙◌}
use harmonic.Text.{Bytes, is_utf8}
use harmonic.Path.{FilePath}
use harmonic.Error.{Outcome, ok, err, panicked, unfinished, >>=-eq-ok, ok-injective}
use harmonic.Io.{Io, done, not_found, failed, from_io}
use harmonic.Proto.{FileAction, ClientSyncState, ServerSyncStateResponse}
use harmonic.Storage.{Contents, Stored}
use harmonic.Storage.Laws.{then_on-ok}
use harmonic.State.{SyncState}
use harmonic.State.Compare.{compare_states}
use harmonic.State.Saved.{state_file_path, save_state, load_state}
use harmonic.Client.Sync.{send_state_to_server, logged, run_sync}

-- Code that returns the disk that it leaves, and else leaves it alone.
abbrev pub returning : Outcome Contents → Contents → Outcome (Unit {0}) × Contents
returning (ok after) disk = (ok tt, after)
returning (err e) disk = (err e, disk)
returning panicked disk = (panicked, disk)
returning unfinished disk = (unfinished, disk)

returning-ok :
    (outcome : Outcome Contents) (disk after : Contents) (u : Unit {0})
    → returning outcome disk ≡ (ok u, after)
    → outcome ≡ ok after
returning-ok (ok d) disk after u e = ap ok (ap (λ r. r.1) e)
returning-ok (err x) disk after u e = cc (ap (λ r. r.0) e)
returning-ok panicked disk after u e = cc (ap (λ r. r.0) e)
returning-ok unfinished disk after u e = cc (ap (λ r. r.0) e)

from_io-ok : {A : Type 0} (x : Io A) (a : A) → from_io x ≡ ok a → x ≡ done a
from_io-ok (done b) a e = ap done (ok-injective b a e)
from_io-ok not_found a e = cc
from_io-ok (failed message) a e = cc

module _ (to_json : SyncState → Outcome Bytes) (from_json : Bytes → Outcome SyncState)
    (read : FilePath → Contents → Io Bytes) (write : FilePath → Bytes → Contents → Io Contents)
    (keeps : (p : FilePath) (text : Bytes) (d d' : Contents)
      → write p text d ≡ done d'
      → read p d' ≡ done text) where
  -- A state that was saved is loaded as the codec gives it back.
  load_state-save_state :
      (state back : SyncState) (disk after : Contents)
      → ((text : Bytes)
          → to_json state ≡ ok text
          → (from_json text ≡ ok back) × (is_utf8 text ≡ true))
      → save_state to_json write state disk ≡ ok after
      → load_state from_json (λ p. read p after) ≡ ok back
  unfolding load_state save_state
  load_state-save_state state back disk after codec e =
      let (text, coded, wrote) = >>=-eq-ok (to_json state) _ e in
      let reads =
        keeps state_file_path text disk after
          (from_io-ok (write state_file_path text disk) after wrote) in
      rw (reads, load_state) (rw ((codec text coded).1) ((codec text coded).0))

-- Let a run of `run_sync` on a disk return without an error, let its walk have given the state `now`,
-- let the disk read back what is written, and let the codec read `now` back as `back`, for it
-- rounds times. Whatever the server planned, whatever the transfer of that plan did to the disk, and
-- whether it succeeded or ended with an error: the next run loads `back`, the state from before
-- the transfer.
pub run_sync-load_state :
    (to_json : SyncState → Outcome Bytes) (from_json : Bytes → Outcome SyncState)
    (read : FilePath → Contents → Io Bytes) (write : FilePath → Bytes → Contents → Io Contents)
    (generate : Stored SyncState) (initiate : ClientSyncState → Outcome ServerSyncStateResponse)
    (transfer : List FileAction → Stored (Unit {0})) (sync_uuid : Bytes) (now back : SyncState)
    (disk walked after : Contents)
    → ((p : FilePath) (text : Bytes) (d d' : Contents)
        → write p text d ≡ done d'
        → read p d' ≡ done text)
    → ((text : Bytes) → to_json now ≡ ok text → (from_json text ≡ ok back) × (is_utf8 text ≡ true))
    → generate disk ≡ (ok now, walked)
    → run_sync
        (λ d. (load_state from_json (λ p. read p d), d))
        generate
        initiate
        transfer
        (λ state d. returning (save_state to_json write state d) d)
        sync_uuid
        disk
      ≡ (ok tt, after)
    → load_state from_json (λ p. read p after) ≡ ok back
unfolding run_sync
run_sync-load_state to_json from_json read write generate initiate transfer sync_uuid now back disk
      walked after keeps codec walk e =
    let (last_state, loaded, e1) =
      then_on-ok (load_state from_json (λ p. read p disk), disk) _ tt after e in
    let (now_state, generated, e2) = then_on-ok (generate disk) _ tt after e1 in
    let (diffs, compared, e3) =
      then_on-ok (compare_states last_state now_state, (generate disk).1) _ tt after e2 in
    let (response, answered, e4) =
      then_on-ok
        (
          send_state_to_server initiate sync_uuid last_state.last_sync_timestamp_micros diffs,
          (generate disk).1,
        )
        _ tt after e3 in
    let (moved, transferred, e5) =
      then_on-ok (logged (transfer response.sync_plan (generate disk).1)) _ tt after e4 in
    let same : now_state ≡ now = ok-injective now_state now (sym generated ∙ ap (λ r. r.0) walk) in
    let left = (logged (transfer response.sync_plan (generate disk).1)).1 in
    load_state-save_state to_json from_json read write keeps now back left after codec (
      ap (λ state. save_state to_json write state left) (sym same)
      ∙ returning-ok (save_state to_json write now_state left) left after tt e5)
