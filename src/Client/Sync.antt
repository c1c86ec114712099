-- ===== src/Client/Sync.antt =====
-- `run_sync`, `send_state_to_server` and `sync_file` of src/bin/client.rs. Connections are foreign:
-- what the server answers, and whether a call succeeds, are parameters.
pub mod Download
pub mod Escapes
pub mod Steps
pub mod Saves
pub mod Upload
use harmonic.Prelude.{Bool, if◌then◌else◌, Option, none, some, List, [], ◌∷◌}
use harmonic.Prelude.Int.{ℤ}
use harmonic.Text.{Bytes}
use harmonic.Path.{FilePath, join}
use harmonic.Path.Spelling.{from_text}
use harmonic.Error.{Outcome, ok, err, panicked, unfinished, ◌>>=◌}
use harmonic.Proto.{FileStatus, FileAction, ClientSyncState, ServerSyncStateResponse}
use harmonic.Proto.{download, direction_i32, BlockSignatures, file_action, signatures, SyncRequest}
use harmonic.Storage.{Contents, Stored, then_on}
use harmonic.Sink.{Sink, Sends, send}
use harmonic.State.{SyncState, Diff}
use harmonic.State.Compare.{compare_states, try_from}
use harmonic.State.Plan.{unwrap_or_default}
use harmonic.Signatures.{generate_blocks_signatures}
use harmonic.Writer.{BlockCache}
use harmonic.Handler.{
  Environment, Session, eq_ℤ, send_block_signatures_for_file, after_sink, drop_writer, start_writer,
  receive,
}

-- `collect` of the conversions: the first error is the result.
unfoldable pub status_list : List Diff → Outcome (List FileStatus)
status_list [] = ok []
status_list (d ∷ diffs) = try_from d >>= λ status. status_list diffs >>= λ rest. ok (status ∷ rest)

-- `send_state_to_server`; `initiate` is the call of the server.
unfoldable pub send_state_to_server :
    (ClientSyncState → Outcome ServerSyncStateResponse)
    → Bytes
    → ℤ
    → List Diff
    → Outcome ServerSyncStateResponse
send_state_to_server initiate sync_uuid last_sync_timestamp diffs =
    status_list diffs >>= λ statuses. initiate (record {
      sync_uuid = sync_uuid;
      timestamp_last_sync_micro = last_sync_timestamp;
      status_list = statuses;
    })

-- The `match` on the result of the transfer: its error is only logged.
abbrev pub logged : Outcome (Unit {0}) × Contents → Outcome (Unit {0}) × Contents
logged (ok done, disk) = (ok tt, disk)
logged (err e, disk) = (ok tt, disk)
logged (panicked, disk) = (panicked, disk)
logged (unfinished, disk) = (unfinished, disk)

-- `run_sync` once it is connected, on the client's disk. `load` is `load_state`, `generate` the walk,
-- `initiate` the call of the server, `transfer` carries a plan out, and `save` is `save_state`.
unfoldable pub run_sync :
    Stored SyncState
    → Stored SyncState
    → (ClientSyncState → Outcome ServerSyncStateResponse)
    → (List FileAction → Stored (Unit {0}))
    → (SyncState → Stored (Unit {0}))
    → Bytes
    → Stored (Unit {0})
run_sync load generate initiate transfer save sync_uuid disk =
    then_on (load disk) (λ last_state disk1. then_on (generate disk1) (λ now_state disk2.
      then_on (compare_states last_state now_state, disk2)
        (λ diffs disk3.
          then_on
            (
              send_state_to_server initiate sync_uuid last_state.last_sync_timestamp_micros diffs,
              disk3,
            )
            (λ response disk4.
              then_on (logged (transfer response.sync_plan disk4))
                (λ done disk5. save now_state disk5)))))

-- `let _ =`: an error is dropped, a panic is not.
abbrev pub ignored {ℓ} : {A : Type ℓ} → Outcome A × Sink → Outcome (Unit {0}) × Sink
ignored (ok a, tx) = (ok tt, tx)
ignored (err e, tx) = (ok tt, tx)
ignored (panicked, tx) = (panicked, tx)
ignored (unfinished, tx) = (unfinished, tx)

abbrev pub empty_signatures : Environment → BlockSignatures
empty_signatures env = record { block_size = env.config.block_size; blocks = [] }

-- The signatures of a download: of the file, or none where it is missing.
unfoldable pub send_own_signatures : Environment → Bool → FilePath → Sends (Unit {0})
send_own_signatures env exists file_path tx =
    if exists
    then ignored (send_block_signatures_for_file env file_path tx)
    else ignored (send (record { payload = some (signatures (empty_signatures env)) }) tx)

-- `unwrap_or` of the signatures with an empty cache.
abbrev pub cache_or_empty : Outcome (BlockSignatures × BlockCache) → Outcome BlockCache
cache_or_empty (ok signed) = ok signed.1
cache_or_empty (err e) = ok (record { blocks = [] })
cache_or_empty panicked = panicked
cache_or_empty unfinished = unfinished

unfoldable pub own_cache : Environment → Bool → FilePath → Outcome BlockCache
own_cache env exists file_path =
    if exists
    then cache_or_empty
        (generate_blocks_signatures env.clean env.blake3 env.read file_path env.config)
    else ok (record { blocks = [] })

-- The two steps of a download before the responses are read.
unfoldable pub prepare_download :
    Environment → (FilePath → Bool) → FileAction → Session → Outcome (Unit {0}) × Session
prepare_download env exists action s =
    let abs_file_path = join env.config.sync_path s.file_path in
    after_sink s (send_own_signatures env (exists abs_file_path) s.file_path s.tx) (λ sent s'.
      after_sink s' (own_cache env (exists abs_file_path) s'.file_path, s'.tx)
        (λ cache s''. (
          ok tt,
          start_writer env abs_file_path cache (unwrap_or_default action.timestamp_latest_modified)
              s'',
        )))

abbrev pub then_receive :
    Environment
    → List (Option SyncRequest)
    → Outcome (Unit {0}) × Session
    → Outcome (Unit {0}) × Session
then_receive env responses (ok done, s) = receive env responses s
then_receive env responses (err e, s) = (err e, s)
then_receive env responses (panicked, s) = (panicked, s)
then_receive env responses (unfinished, s) = (unfinished, s)

abbrev pub start_download :
    Environment → (FilePath → Bool) → FileAction → Session → Outcome (Unit {0}) × Session
start_download env exists action s =
    if eq_ℤ action.direction (direction_i32 download)
    then prepare_download env exists action s
    else (ok tt, s)

-- `sync_file` once its stream is open: the action goes out, a download is prepared, and the
-- responses are handled as the server handles its requests. The variables are dropped at the end.
unfoldable pub sync_file :
    Environment
    → (FilePath → Bool)
    → FileAction
    → List (Option SyncRequest)
    → Sink
    → Outcome (Unit {0}) × Session
sync_file env exists action responses tx =
    let start : Session = record {
      file_path = from_text action.path;
      writer_tx = none;
      closed = [];
      tx = tx;
    } in
    let run =
      after_sink start (send (record { payload = some (file_action action) }) tx)
        (λ sent s. then_receive env responses (start_download env exists action s)) in
    (run.0, drop_writer run.1)
