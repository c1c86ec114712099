-- ===== src/Handler/Upload.antt =====
-- An upload from the client's sender to the server's files.
use harmonic.Prelude.{◌+◌, ◌^◌, ◌≤◌, ◌<◌, true, length}
use harmonic.Prelude.{none, some, List, [], ◌∷◌, ◌++◌, map, append_assoc}
use harmonic.Prelude.{◌≡◌, refl, ◌∙◌}
use harmonic.Text.{Bytes}
use harmonic.Path.{FilePath}
use harmonic.Path.Keys.{path_ord}
use harmonic.Path.Spelling.{from_text}
use harmonic.Error.{ok}
use harmonic.Io.{Io, done}
use harmonic.Absolute.{get_absolute_path}
use harmonic.Proto.{Timestamp, FileAction, upload, direction_i32, BlockSignatures}
use harmonic.Proto.{Delta, SyncRequest}
use harmonic.Sink.{Sink}
use harmonic.BTree.{keys, get}
use harmonic.BTree.Laws.{IsSorted}
use harmonic.State.Plan.{unwrap_or_default}
use harmonic.Signatures.{chunks, sign_file, or_empty}
use harmonic.Signatures.Cache.{NoCollision}
use harmonic.Transfer.{send_delta_from_block_signatures}
use harmonic.Transfer.Runs.{requests}
use harmonic.Transfer.Rebuild.{complete_request}
use harmonic.Resync.{sign-send-write}
use harmonic.Writer.{BlockCache}
use harmonic.Writer.Temporary.{has_file_name}
use harmonic.Writer.Target.{Files, Permits, delta_writer}
use harmonic.Writer.Target.Delivered.{Allows, get-delta_writer}
use harmonic.Handler.{
  Environment, Session, continue, drop_writer, start_writer, handle_file_action,
  handle_sync_payload, receive, handle_sync_request_stream,
}
use harmonic.Handler.Receive.{writer_of, writing, receive-deltas}
use harmonic.Handler.Signed.{signatures_request, action_request, send_block_signatures-Signed}

module _ (env : Environment) (path : FilePath) (old : Bytes) (signed : BlockSignatures × BlockCache)
    (action : FileAction) (tx : Sink) (uploads : action.direction ≡ direction_i32 upload)
    (resolves : get_absolute_path env.clean (from_text action.path) env.config.sync_path ≡ ok path)
    (holds : or_empty (env.read path) ≡ ok old)
    (signs : sign_file env.blake3 env.config.block_size old ≡ ok signed)
    (lives : env.lifetime path ≡ none) (open_channel : tx.closes ≡ none) where
  abbrev ts : Timestamp
  ts = unwrap_or_default action.timestamp_latest_modified

  abbrev answered : Sink
  answered = record tx { sent = tx.sent ++ signatures_request signed.0 ∷ [] }

  abbrev fresh : Session
  fresh = record { file_path = []; writer_tx = none; closed = []; tx = tx }

  act :
      handle_file_action env action fresh
      ≡ (ok continue, writing (from_text action.path) (writer_of path signed.1 ts []) answered)
  unfolding handle_file_action start_writer drop_writer
  act =
      rw (uploads, handle_file_action)
        (rw
          (send_block_signatures-Signed env (from_text action.path) path old signed tx resolves
            holds signs open_channel)
          (rw resolves (rw lives refl)))

  -- What comes after `complete` is not read.
  pub serve :
      (deltas : List Delta) (rest : List SyncRequest)
      → handle_sync_request_stream env
          (map some (action_request action ∷ requests deltas ++ complete_request ∷ rest))
          tx
        ≡ (
          ok tt,
          record {
            file_path = from_text action.path;
            writer_tx = none;
            closed = writer_of path signed.1 ts deltas ∷ [];
            tx = record tx {
              sent = (tx.sent ++ signatures_request signed.0 ∷ []) ++ complete_request ∷ [];
            };
          },
        )
  unfolding handle_sync_request_stream receive handle_sync_payload drop_writer
  serve deltas rest =
      rw (act, handle_sync_request_stream)
        (rw
          (receive-deltas env (from_text action.path) path signed.1 ts answered open_channel rest
            deltas [])
          refl)

-- An upload: the signatures that the server answers with, the client's run on them, the server's
-- run on the client's messages, and what the task of the server's writer stores.
pub record Uploaded (env : Environment) (read : FilePath → Io Bytes) (file path : FilePath)
    (text : Bytes) (action : FileAction) (sink tx : Sink) (permits : Permits) (disk : Files)
    : Type 0 where
  pub signed : BlockSignatures × BlockCache
  pub client_sink : Sink
  pub messages : List SyncRequest
  pub deltas : List Delta
  pub client_returns :
      send_delta_from_block_signatures env.blake3 read file signed.0 sink ≡ (ok tt, client_sink)
  pub client_sends : client_sink.sent ≡ sink.sent ++ messages
  pub server_returns :
      handle_sync_request_stream env (map some (action_request action ∷ messages)) tx ≡ (
        ok tt,
        record {
          file_path = from_text action.path;
          writer_tx = none;
          closed =
              writer_of path signed.1 (unwrap_or_default action.timestamp_latest_modified) deltas
              ∷ [];
          tx = record tx {
            sent = (tx.sent ++ signatures_request signed.0 ∷ []) ++ complete_request ∷ [];
          };
        },
      )
  pub stores :
      get path
        (delta_writer permits path signed.1
          (unwrap_or_default action.timestamp_latest_modified)
          deltas
          disk).contents
      ≡ some text

-- Let the server get an action that says upload, for a path that it resolves to `path`, where it
-- holds `old` or no file. For a positive block size, a client's file `text` whose length and the
-- block size fit 64 bits together, at most 2 ^ 32 blocks of `old` and no block of `text` that has the
-- strong checksum of a different one of them, channels that stay open, a writer that takes all, a path
-- that ends in a name and a disk, its files a map with its keys in order, that refuses nothing:
-- the client's answer to the server's signatures returns without an error; the server, fed with the
-- action and the client's messages, returns without an error, has answered with the signatures and
-- `complete`, and has closed one writer; and that writer's task leaves exactly `text` at the path.
pub upload-Uploaded :
    (env : Environment) (read : FilePath → Io Bytes) (file path : FilePath) (old text : Bytes)
    (action : FileAction) (sink tx : Sink) (permits : Permits) (disk : Files)
    → action.direction ≡ direction_i32 upload
    → get_absolute_path env.clean (from_text action.path) env.config.sync_path ≡ ok path
    → or_empty (env.read path) ≡ ok old
    → read file ≡ done text
    → 0 < env.config.block_size
    → length text + env.config.block_size < 2 ^ 64
    → length (chunks env.config.block_size old) ≤ 2 ^ 32
    → NoCollision env.blake3 env.config.block_size text (chunks env.config.block_size old)
    → env.lifetime path ≡ none
    → sink.closes ≡ none
    → tx.closes ≡ none
    → has_file_name path ≡ true
    → IsSorted (keys disk.contents)
    → Allows permits path
    → Uploaded env read file path text action sink tx permits disk
upload-Uploaded env read file path old text action sink tx permits disk uploads resolves holds reads
      pos fits few distinct lives sink_open tx_open named sorted allowed =
    let (signed, signs, rebuilt) =
      sign-send-write env.blake3 read file env.config.block_size old text sink pos fits few distinct
        reads sink_open in
    record {
      signed = signed;
      client_sink = rebuilt.sink;
      messages = requests rebuilt.deltas ++ complete_request ∷ [];
      deltas = rebuilt.deltas;
      client_returns = rebuilt.returns;
      client_sends =
          rebuilt.sent ∙ append_assoc sink.sent (requests rebuilt.deltas) (complete_request ∷ []);
      server_returns =
          serve env path old signed action tx uploads resolves holds signs lives tx_open
            rebuilt.deltas [];
      stores =
          get-delta_writer permits path signed.1 _ rebuilt.deltas text disk rebuilt.wrote named
            sorted allowed;
    }
