-- ===== src/Handler.antt =====
-- src/sync/handler.rs, and the loop over a stream of requests in src/bin/server.rs. The tasks that
-- write files run beside the handler: a writer here is the sending end of such a task's channel,
-- with what went through it.
pub mod Confined
pub mod Receive
pub mod Signed
pub mod Tasks
pub mod Upload
pub mod Writers
use harmonic.Prelude.{
  ℕ, zero, suc, Bool, true, if◌then◌else◌, Option, none, some, List, [], ◌∷◌, ◌++◌,
}
use harmonic.Prelude.Int.{ℤ, ltb_ℤ}
use harmonic.Prelude.{not, ◌&&◌}
use harmonic.Text.{Bytes}
use harmonic.Path.{FilePath}
use harmonic.Path.Spelling.{from_text}
use harmonic.Error.{HarmonicError, send_error, grpc_status, Outcome, ok, err, panicked, unfinished}
use harmonic.Io.{Io}
use harmonic.Config.{Config}
use harmonic.Absolute.{get_absolute_path}
use harmonic.Proto.{Timestamp, FileAction, download, upload, direction_i32, BlockSignatures}
use harmonic.Proto.{Delta, Payload, file_action, signatures, delta, complete, SyncRequest}
use harmonic.Sink.{Sink, Sends, pure, lift, send, ◌>>=◌, ◌>>◌}
use harmonic.State.Plan.{unwrap_or_default}
use harmonic.Signatures.{generate_blocks_signatures}
use harmonic.Transfer.{send_delta_from_block_signatures}
use harmonic.Writer.{BlockCache}

-- What a side runs on: its disk, its configuration and the foreign functions. `lifetime` tells for
-- how many deltas a writer's task takes its messages: `none` is a task that never fails.
pub record Environment : Type 0 where
  pub clean : FilePath → FilePath
  pub blake3 : Bytes → Bytes
  pub read : FilePath → Io Bytes
  pub lifetime : FilePath → Option ℕ
  pub config : Config

pub record Writer : Type 0 where
  pub path : FilePath
  pub cache : BlockCache
  pub modified_ts : Timestamp
  pub accepted : List Delta
  pub accepts : Option ℕ

-- The variables of a session, its channel to the peer, and the writers whose channel is closed.
pub record Session : Type 0 where
  pub file_path : FilePath
  pub writer_tx : Option Writer
  pub closed : List Writer
  pub tx : Sink

pub data SyncStatus : Type 0 where
  continue completed : SyncStatus

abbrev pub eq_ℤ : ℤ → ℤ → Bool
eq_ℤ a b = not (ltb_ℤ a b) && not (ltb_ℤ b a)

-- `map_err(|e| HarmonicError::SendError(e.to_string()))`
abbrev pub as_send_error {ℓ} : {A : Type ℓ} → Outcome A → Outcome A
as_send_error (ok a) = ok a
as_send_error (err e) = err (send_error [])
as_send_error panicked = panicked
as_send_error unfinished = unfinished

-- `send_block_signatures_for_file` of src/sync/transfer.rs.
unfoldable pub send_block_signatures_for_file : Environment → FilePath → Sends BlockCache
send_block_signatures_for_file env file_path = do
  signed ← lift (
      as_send_error (generate_blocks_signatures env.clean env.blake3 env.read file_path env.config))
  send (record { payload = some (signatures signed.0) })
  pure signed.1

-- `?` on code that sends.
abbrev pub after_sink {ℓ} :
    {A : Type 0} {B : Type ℓ}
    → Session
    → Outcome A × Sink
    → (A → Session → Outcome B × Session)
    → Outcome B × Session
after_sink s (ok a, tx) next = next a (record s { tx = tx })
after_sink s (err e, tx) next = (err e, record s { tx = tx })
after_sink s (panicked, tx) next = (panicked, record s { tx = tx })
after_sink s (unfinished, tx) next = (unfinished, record s { tx = tx })

abbrev pub after_path {ℓ} :
    {B : Type ℓ}
    → Session
    → Outcome FilePath
    → (FilePath → Outcome B × Session)
    → Outcome B × Session
after_path s (ok path) next = next path
after_path s (err e) next = (err e, s)
after_path s panicked next = (panicked, s)
after_path s unfinished next = (unfinished, s)

-- A sender that is dropped closes its channel.
unfoldable pub drop_writer : Session → Session
drop_writer s = elim s.writer_tx [
  | none ↦ s
  | some w ↦ record s { writer_tx = none; closed = s.closed ++ w ∷ [] }
]

-- `delta_writer` as its caller sees it.
unfoldable pub start_writer : Environment → FilePath → BlockCache → Timestamp → Session → Session
start_writer env path cache ts s = record (drop_writer s) {
  writer_tx = some (record {
    path = path;
    cache = cache;
    modified_ts = ts;
    accepted = [];
    accepts = env.lifetime path;
  });
}

abbrev pub accept : Writer → Delta → Option ℕ → Session → Outcome SyncStatus × Session
accept w d left s = (
  ok continue,
  record s { writer_tx = some (record w { accepted = w.accepted ++ d ∷ []; accepts = left }) },
)

-- The branch of a delta.
unfoldable pub handle_delta : Delta → Session → Outcome SyncStatus × Session
handle_delta d s = elim s.writer_tx [
  | none ↦ (ok continue, s)
  | some w ↦ elim w.accepts [
    | none ↦ accept w d none s
    | some left ↦ elim left [
      | zero ↦ (err (send_error []), s)
      | suc fewer ↦ accept w d (some fewer) s
    ]
  ]
]

-- The branch of a file action.
unfoldable pub handle_file_action :
    Environment → FileAction → Session → Outcome SyncStatus × Session
handle_file_action env action s =
    let at = record s { file_path = from_text action.path } in
    if eq_ℤ action.direction (direction_i32 download)
    then (ok continue, at)
    else if eq_ℤ action.direction (direction_i32 upload)
    then after_sink at (send_block_signatures_for_file env at.file_path at.tx) (λ cache s'.
      after_path s' (get_absolute_path env.clean s'.file_path env.config.sync_path) (λ abs_path. (
        ok continue,
        start_writer env abs_path cache (unwrap_or_default action.timestamp_latest_modified) s',
      )))
    else (ok continue, s)

unfoldable pub handle_signatures :
    Environment → BlockSignatures → Session → Outcome SyncStatus × Session
handle_signatures env block_signatures s =
    after_path s (get_absolute_path env.clean s.file_path env.config.sync_path) (λ abs_path.
      after_sink s
        (send_delta_from_block_signatures env.blake3 env.read abs_path block_signatures s.tx)
        (λ _ s'. (ok continue, s')))

unfoldable pub handle_complete : Session → Outcome SyncStatus × Session
handle_complete s =
    after_sink s (send (record { payload = some (complete true) }) s.tx)
      (λ _ s'. (ok completed, s'))

unfoldable pub handle_sync_payload : Environment → Payload → Session → Outcome SyncStatus × Session
handle_sync_payload env (file_action action) s = handle_file_action env action s
handle_sync_payload env (signatures block_signatures) s = handle_signatures env block_signatures s
handle_sync_payload env (delta d) s = handle_delta d s
handle_sync_payload env (complete done) s = handle_complete s

-- What the loop does with the result of a payload.
abbrev pub after_payload :
    Outcome SyncStatus × Session
    → (Session → Outcome (Unit {0}) × Session)
    → Outcome (Unit {0}) × Session
after_payload (ok continue, s) next = next s
after_payload (ok completed, s) next = (ok tt, s)
after_payload (err e, s) next = (err e, s)
after_payload (panicked, s) next = (panicked, s)
after_payload (unfinished, s) next = (unfinished, s)

-- The `while let` over the stream, an element of which may be an error status.
unfoldable pub receive :
    Environment → List (Option SyncRequest) → Session → Outcome (Unit {0}) × Session
receive env [] s = (ok tt, s)
receive env (none ∷ requests) s = (err (grpc_status []), s)
receive env (some request ∷ requests) s = elim request.payload [
  | none ↦ receive env requests s
  | some payload ↦ after_payload (handle_sync_payload env payload s) (receive env requests)
]

-- `handle_sync_request_stream`: its variables are dropped at the end, on every way out.
unfoldable pub handle_sync_request_stream :
    Environment → List (Option SyncRequest) → Sink → Outcome (Unit {0}) × Session
handle_sync_request_stream env requests tx =
    let run =
      receive env requests (record { file_path = []; writer_tx = none; closed = []; tx = tx }) in
    (run.0, drop_writer run.1)
