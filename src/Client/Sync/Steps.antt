-- ===== src/Client/Sync/Steps.antt =====
-- The two runs of a download, and the client's run of an upload, each on given messages of the
-- other side.
use harmonic.Prelude.{◌<◌, Bool, true, false}
use harmonic.Prelude.{none, some, List, [], ◌∷◌, ◌++◌, map}
use harmonic.Prelude.{◌≡◌, refl, sym, ap, arith}
use harmonic.Text.{Bytes}
use harmonic.Path.{FilePath, join}
use harmonic.Path.Keys.{path_ord}
use harmonic.Path.Spelling.{from_text}
use harmonic.Error.{ok}
use harmonic.Absolute.{get_absolute_path}
use harmonic.Proto.{
  Timestamp, FileAction, download, upload, direction_i32, BlockSignatures, Delta, SyncRequest,
}
use harmonic.Sink.{Sink}
use harmonic.State.Plan.{unwrap_or_default}
use harmonic.Signatures.{chunks, chunks_from, sign_blocks, sign_file, or_empty}
use harmonic.Transfer.{send_delta_from_block_signatures}
use harmonic.Transfer.Runs.{requests, send_open}
use harmonic.Transfer.Rebuild.{complete_request}
use harmonic.Writer.{BlockCache}
use harmonic.Handler.{
  Environment, Session, eq_ℤ, handle_file_action, handle_signatures, handle_complete,
  handle_sync_payload, receive, handle_sync_request_stream, drop_writer, start_writer,
}
use harmonic.Handler.Receive.{writer_of, writing, receive-deltas}
use harmonic.Handler.Signed.{
  signatures_request, action_request, generate-Signed, send_block_signatures-Signed,
}
use harmonic.Client.Sync.{
  send_own_signatures, own_cache, prepare_download, sync_file, empty_signatures,
}

abbrev pub begun : FileAction → Sink → Session
begun action tx = record {
  file_path = from_text action.path;
  writer_tx = none;
  closed = [];
  tx = tx;
}

abbrev pub latest : FileAction → Timestamp
latest action = unwrap_or_default action.timestamp_latest_modified

abbrev pub acted : FileAction → Sink → Sink
acted action sink = record sink { sent = sink.sent ++ action_request action ∷ [] }

-- A file without blocks.
abbrev pub empty_signed : Environment → BlockSignatures × BlockCache
empty_signed env = (empty_signatures env, record { blocks = [] })

pub sign_file-empty :
    (env : Environment)
    → 0 < env.config.block_size
    → sign_file env.blake3 env.config.block_size [] ≡ ok (empty_signed env)
unfolding sign_file chunks chunks_from sign_blocks
sign_file-empty env pos = ground arith

module _ (env : Environment) (exists : FilePath → Bool) (action : FileAction) (path : FilePath)
    (old : Bytes) (signed : BlockSignatures × BlockCache) (tx : Sink)
    (joins : join env.config.sync_path (from_text action.path) ≡ path)
    (resolves : get_absolute_path env.clean (from_text action.path) env.config.sync_path ≡ ok path)
    (lives : env.lifetime path ≡ none) (open_channel : tx.closes ≡ none) where
  abbrev p : FilePath
  p = from_text action.path

  abbrev signed_tx : Sink
  signed_tx = record tx { sent = tx.sent ++ signatures_request signed.0 ∷ [] }

  -- With the signatures sent and the cache made, the writer is started.
  prepared :
      send_own_signatures env (exists path) p tx ≡ (ok tt, signed_tx)
      → own_cache env (exists path) p ≡ ok signed.1
      → prepare_download env exists action (begun action tx)
        ≡ (ok tt, writing p (writer_of path signed.1 (latest action) []) signed_tx)
  unfolding prepare_download start_writer drop_writer
  prepared sends caches = rw (joins, prepare_download) (rw sends (rw caches (rw lives refl)))

  pub prepared_old :
      exists path ≡ true
      → or_empty (env.read path) ≡ ok old
      → sign_file env.blake3 env.config.block_size old ≡ ok signed
      → prepare_download env exists action (begun action tx)
        ≡ (ok tt, writing p (writer_of path signed.1 (latest action) []) signed_tx)
  unfolding send_own_signatures own_cache
  prepared_old there holds signs =
      prepared
        (rw (there, send_own_signatures)
          (rw
            (send_block_signatures-Signed env p path old signed tx resolves holds signs
              open_channel)
            refl))
        (rw (there, own_cache)
          (rw (generate-Signed env p path old signed tx resolves holds signs open_channel) refl))

  pub prepared_new :
      exists path ≡ false
      → signed ≡ empty_signed env
      → prepare_download env exists action (begun action tx)
        ≡ (ok tt, writing p (writer_of path signed.1 (latest action) []) signed_tx)
  unfolding send_own_signatures own_cache
  prepared_new missing empty =
      prepared
        (rw (missing, send_own_signatures)
          (rw (send_open (signatures_request (empty_signatures env)) tx open_channel) (
            ap (λ s. (ok tt, record tx { sent = tx.sent ++ signatures_request s.0 ∷ [] }))
              (sym empty))))
        (rw (missing, own_cache) (ap (λ s. ok s.1) (sym empty)))

-- The client's run on the responses, once its download is prepared.
module _ (env : Environment) (exists : FilePath → Bool) (action : FileAction) (path : FilePath)
    (cache : BlockCache) (sink tx : Sink) (downloads : action.direction ≡ direction_i32 download)
    (sink_open : sink.closes ≡ none) (open_channel : tx.closes ≡ none)
    (ready : prepare_download env exists action (begun action (acted action sink))
      ≡ (ok tt, writing (from_text action.path) (writer_of path cache (latest action) []) tx)) where
  pub client_run :
      (deltas : List Delta) (rest : List SyncRequest)
      → sync_file env exists action (map some (requests deltas ++ complete_request ∷ rest)) sink ≡ (
        ok tt,
        record {
          file_path = from_text action.path;
          writer_tx = none;
          closed = writer_of path cache (latest action) deltas ∷ [];
          tx = record tx { sent = tx.sent ++ complete_request ∷ [] };
        },
      )
  unfolding sync_file drop_writer
  client_run deltas rest =
      rw (send_open (action_request action) sink sink_open, sync_file)
        (rw (ap (λ d. eq_ℤ d (direction_i32 download)) downloads) (
          rw ready (
            rw
              (receive-deltas env (from_text action.path) path cache (latest action) tx open_channel
                rest deltas [])
              refl)))

-- The server's run on what the client sends: the action, its signatures and `complete`.
module _ (env : Environment) (action : FileAction) (source : FilePath)
    (block_signatures : BlockSignatures) (tx after : Sink)
    (downloads : action.direction ≡ direction_i32 download)
    (resolves : get_absolute_path env.clean (from_text action.path) env.config.sync_path
      ≡ ok source)
    (answers : send_delta_from_block_signatures env.blake3 env.read source block_signatures tx
      ≡ (ok tt, after))
    (stays_open : after.closes ≡ none) where
  pub server_run :
      handle_sync_request_stream env
        (map some
          (action_request action ∷ signatures_request block_signatures ∷ complete_request ∷ []))
        tx
      ≡ (
        ok tt,
        record {
          file_path = from_text action.path;
          writer_tx = none;
          closed = [];
          tx = record after { sent = after.sent ++ complete_request ∷ [] };
        },
      )
  unfolding handle_sync_request_stream receive handle_sync_payload handle_file_action
      handle_signatures handle_complete drop_writer
  server_run =
      rw (downloads, handle_sync_request_stream)
        (rw resolves (rw answers (rw (send_open complete_request after stays_open) refl)))

-- The client's run of an upload on what the server sends: its signatures and `complete`.
module _ (env : Environment) (exists : FilePath → Bool) (action : FileAction) (source : FilePath)
    (block_signatures : BlockSignatures) (sink after : Sink)
    (uploads : action.direction ≡ direction_i32 upload)
    (resolves : get_absolute_path env.clean (from_text action.path) env.config.sync_path
      ≡ ok source)
    (answers : send_delta_from_block_signatures env.blake3 env.read source block_signatures
        (acted action sink)
      ≡ (ok tt, after))
    (sink_open : sink.closes ≡ none) (stays_open : after.closes ≡ none) where
  pub upload_run :
      sync_file env exists action
        (map some (signatures_request block_signatures ∷ complete_request ∷ []))
        sink
      ≡ (
        ok tt,
        record {
          file_path = from_text action.path;
          writer_tx = none;
          closed = [];
          tx = record after { sent = after.sent ++ complete_request ∷ [] };
        },
      )
  unfolding sync_file receive handle_sync_payload handle_signatures handle_complete drop_writer
  upload_run =
      rw (send_open (action_request action) sink sink_open, sync_file)
        (rw (ap (λ d. eq_ℤ d (direction_i32 download)) uploads)
          (rw resolves (rw answers (rw (send_open complete_request after stays_open) refl))))
