-- ===== src/Client/Sync/Upload.antt =====
-- An upload: the client's `sync_file` against the server's loop over the stream.
use harmonic.Prelude.{◌+◌, ◌^◌, ◌≤◌, ◌<◌, Bool, true, length}
use harmonic.Prelude.{none, some, List, [], ◌∷◌, ◌++◌, map, append_assoc}
use harmonic.Prelude.{◌≡◌, ap, ◌∙◌}
use harmonic.Text.{Bytes}
use harmonic.Path.{FilePath}
use harmonic.Path.Keys.{path_ord}
use harmonic.Path.Spelling.{from_text}
use harmonic.Error.{ok}
use harmonic.Io.{done}
use harmonic.Absolute.{get_absolute_path}
use harmonic.Proto.{FileAction, upload, direction_i32, BlockSignatures, Delta}
use harmonic.Sink.{Sink}
use harmonic.BTree.{keys, get}
use harmonic.BTree.Laws.{IsSorted}
use harmonic.Signatures.{chunks, or_empty}
use harmonic.Signatures.Cache.{NoCollision}
use harmonic.Transfer.{send_delta_from_block_signatures}
use harmonic.Transfer.Runs.{requests}
use harmonic.Transfer.Rebuild.{complete_request}
use harmonic.Resync.{sign-send-write}
use harmonic.Writer.{BlockCache}
use harmonic.Writer.Temporary.{has_file_name}
use harmonic.Writer.Target.{Files, Permits, delta_writer}
use harmonic.Writer.Target.Delivered.{Allows, get-delta_writer}
use harmonic.Handler.{Environment, handle_sync_request_stream}
use harmonic.Handler.Receive.{writer_of}
use harmonic.Handler.Signed.{signatures_request, action_request}
use harmonic.Handler.Upload.{serve}
use harmonic.Client.Sync.{sync_file}
use harmonic.Client.Sync.Steps.{latest, acted, upload_run}

-- An upload: what the client and the server send each other, and what the task of the server's
-- writer stores.
pub record Delivered (client server : Environment) (exists : FilePath → Bool) (action : FileAction)
    (path : FilePath) (text : Bytes) (sink tx : Sink) (permits : Permits) (disk : Files)
    : Type 0 where
  pub signed : BlockSignatures × BlockCache
  pub deltas : List Delta
  pub client_sink : Sink
  pub client_returns :
      sync_file client exists action
        (map some (signatures_request signed.0 ∷ complete_request ∷ []))
        sink
      ≡ (
        ok tt,
        record {
          file_path = from_text action.path;
          writer_tx = none;
          closed = [];
          tx = client_sink;
        },
      )
  pub client_sends :
      client_sink.sent
      ≡ sink.sent
        ++ (action_request action ∷ requests deltas ++ complete_request ∷ complete_request ∷ [])
  pub server_returns :
      handle_sync_request_stream server
        (map some
          (action_request action ∷ requests deltas ++ complete_request ∷ complete_request ∷ []))
        tx
      ≡ (
        ok tt,
        record {
          file_path = from_text action.path;
          writer_tx = none;
          closed = writer_of path signed.1 (latest action) deltas ∷ [];
          tx = record tx {
            sent = (tx.sent ++ signatures_request signed.0 ∷ []) ++ complete_request ∷ [];
          };
        },
      )
  pub stores :
      get path (delta_writer permits path signed.1 (latest action) deltas disk).contents ≡ some text

-- Let the client carry out an action that says upload, for a path that it resolves to a file that
-- reads as `text`, and that the server resolves to `path`, where it holds `old` or no file. If both use
-- the same hash, the block size is positive and fits 64 bits together with the length of `text`, `old`
-- has at most 2 ^ 32 blocks, none with the strong checksum of a different block of `text`, the channels
-- stay open, the server's writer takes all, `path` ends in a name and the disk, its files a map with
-- its keys in order, refuses nothing, then: the client, fed with what the server sends,
-- returns without an error and has sent the action, its deltas and `complete` twice; the server, fed
-- with what the client sends, returns without an error, has sent its signatures and `complete`, and
-- has closed one writer; and the task of the writer leaves exactly `text` at the path.
pub upload-Delivered :
    (client server : Environment) (exists : FilePath → Bool) (action : FileAction)
    (source path : FilePath) (old text : Bytes) (sink tx : Sink) (permits : Permits) (disk : Files)
    → action.direction ≡ direction_i32 upload
    → get_absolute_path client.clean (from_text action.path) client.config.sync_path ≡ ok source
    → client.read source ≡ done text
    → get_absolute_path server.clean (from_text action.path) server.config.sync_path ≡ ok path
    → or_empty (server.read path) ≡ ok old
    → client.blake3 ≡ server.blake3
    → 0 < server.config.block_size
    → length text + server.config.block_size < 2 ^ 64
    → length (chunks server.config.block_size old) ≤ 2 ^ 32
    → NoCollision server.blake3 server.config.block_size text (chunks server.config.block_size old)
    → server.lifetime path ≡ none
    → sink.closes ≡ none
    → tx.closes ≡ none
    → has_file_name path ≡ true
    → IsSorted (keys disk.contents)
    → Allows permits path
    → Delivered client server exists action path text sink tx permits disk
upload-Delivered client server exists action source path old text sink tx permits disk uploads finds
      reads resolves holds same_hash pos fits few distinct lives sink_open tx_open named sorted
      allowed =
    let (signed, signs, rebuilt) =
      sign-send-write server.blake3 client.read source server.config.block_size old text
        (acted action sink) pos fits few distinct reads sink_open in
    record {
      signed = signed;
      deltas = rebuilt.deltas;
      client_sink = record rebuilt.sink { sent = rebuilt.sink.sent ++ complete_request ∷ [] };
      client_returns =
          upload_run client exists action source signed.0 sink rebuilt.sink uploads finds
            (ap
                (λ f.
                  send_delta_from_block_signatures f client.read source signed.0
                    (acted action sink))
                same_hash
              ∙ rebuilt.returns)
            sink_open rebuilt.stays_open;
      client_sends =
          ap (λ sent. sent ++ complete_request ∷ []) rebuilt.sent
          ∙ append_assoc ((sink.sent ++ action_request action ∷ []) ++ requests rebuilt.deltas)
              (complete_request ∷ []) (complete_request ∷ [])
          ∙ append_assoc (sink.sent ++ action_request action ∷ []) (requests rebuilt.deltas)
              (complete_request ∷ complete_request ∷ [])
          ∙ append_assoc sink.sent (action_request action ∷ [])
              (requests rebuilt.deltas ++ complete_request ∷ complete_request ∷ []);
      server_returns =
          serve server path old signed action tx uploads resolves holds signs lives tx_open
            rebuilt.deltas (complete_request ∷ []);
      stores =
          get-delta_writer permits path signed.1 _ rebuilt.deltas text disk rebuilt.wrote named
            sorted allowed;
    }
