-- ===== src/Client/Sync/Download.antt =====
-- A download: the client's `sync_file` against the server's loop over the stream.
use harmonic.Prelude.{◌+◌, ◌^◌, ◌≤◌, ◌<◌, Bool, true, false, length}
use harmonic.Prelude.{none, some, List, [], ◌∷◌, ◌++◌, map, append_assoc}
use harmonic.Prelude.{◌≡◌, sym, ap, ◌∙◌, ◌⊎◌, inl, inr}
use harmonic.Text.{Bytes}
use harmonic.Path.{FilePath, join}
use harmonic.Path.Keys.{path_ord}
use harmonic.Path.Spelling.{from_text}
use harmonic.Error.{ok, ok-injective}
use harmonic.Io.{done}
use harmonic.Absolute.{get_absolute_path}
use harmonic.Proto.{FileAction, download, direction_i32, BlockSignatures, Delta}
use harmonic.Sink.{Sink}
use harmonic.BTree.{keys, get}
use harmonic.BTree.Laws.{IsSorted}
use harmonic.Signatures.{chunks, sign_file, or_empty}
use harmonic.Signatures.Cache.{NoCollision}
use harmonic.Transfer.{send_delta_from_block_signatures}
use harmonic.Transfer.Runs.{requests}
use harmonic.Transfer.Rebuild.{complete_request}
use harmonic.Resync.{sign-send-write}
use harmonic.Writer.{BlockCache}
use harmonic.Writer.Temporary.{has_file_name}
use harmonic.Writer.Target.{Files, Permits, delta_writer}
use harmonic.Writer.Target.Delivered.{Allows, get-delta_writer}
use harmonic.Handler.{Environment, handle_sync_request_stream}
use harmonic.Handler.Receive.{writer_of, writing}
use harmonic.Handler.Signed.{signatures_request, action_request}
use harmonic.Client.Sync.{prepare_download, sync_file}
use harmonic.Client.Sync.Steps.{
  begun, latest, acted, empty_signed, sign_file-empty, prepared_old, prepared_new, client_run,
  server_run,
}

-- A download: what the client and the server send each other, and what the task of the client's
-- writer stores.
pub record Downloaded (client server : Environment) (exists : FilePath → Bool) (action : FileAction)
    (path : FilePath) (text : Bytes) (sink tx : Sink) (permits : Permits) (disk : Files)
    : Type 0 where
  pub signed : BlockSignatures × BlockCache
  pub deltas : List Delta
  pub server_sink : Sink
  pub client_returns :
      sync_file client exists action
        (map some (requests deltas ++ complete_request ∷ complete_request ∷ []))
        sink
      ≡ (
        ok tt,
        record {
          file_path = from_text action.path;
          writer_tx = none;
          closed = writer_of path signed.1 (latest action) deltas ∷ [];
          tx = record sink {
            sent =
                ((sink.sent ++ action_request action ∷ []) ++ signatures_request signed.0 ∷ [])
                ++ complete_request ∷ [];
          };
        },
      )
  pub server_returns :
      handle_sync_request_stream server
        (map some (action_request action ∷ signatures_request signed.0 ∷ complete_request ∷ []))
        tx
      ≡ (
        ok tt,
        record {
          file_path = from_text action.path;
          writer_tx = none;
          closed = [];
          tx = server_sink;
        },
      )
  pub server_sends :
      server_sink.sent ≡ tx.sent ++ (requests deltas ++ complete_request ∷ complete_request ∷ [])
  pub stores :
      get path (delta_writer permits path signed.1 (latest action) deltas disk).contents ≡ some text

-- What the client has at the path: a file that reads as `old`, or nothing and `old` is empty.
abbrev pub Holds : Environment → (FilePath → Bool) → FilePath → Bytes → Type 0
Holds env exists path old =
    ((exists path ≡ true) × (or_empty (env.read path) ≡ ok old))
    ⊎ ((exists path ≡ false) × (old ≡ []))

-- Let the client carry out an action that says download, for a path that both ways to resolve it
-- take to `path`, where it holds `old` or nothing, and let the server resolve it to a file that reads
-- as `text`. If both use the same hash, the block size is positive and fits 64 bits together with the
-- length of `text`, `old` has at most 2 ^ 32 blocks, none with the strong checksum of a different block
-- of `text`, the channels stay open, the client's writer takes all, `path` ends in a name and the disk,
-- its files a map with its keys in order, refuses nothing, then: the client, fed with what
-- the server sends, returns without an error, has sent the action, its signatures and `complete`,
-- and has closed one writer; the server, fed with what the client sends, returns without an error
-- and has sent what the client was fed with; and the task of the writer leaves exactly `text` at the
-- path.
pub download-Downloaded :
    (client server : Environment) (exists : FilePath → Bool) (action : FileAction)
    (path source : FilePath) (old text : Bytes) (sink tx : Sink) (permits : Permits) (disk : Files)
    → action.direction ≡ direction_i32 download
    → join client.config.sync_path (from_text action.path) ≡ path
    → get_absolute_path client.clean (from_text action.path) client.config.sync_path ≡ ok path
    → Holds client exists path old
    → get_absolute_path server.clean (from_text action.path) server.config.sync_path ≡ ok source
    → server.read source ≡ done text
    → server.blake3 ≡ client.blake3
    → 0 < client.config.block_size
    → length text + client.config.block_size < 2 ^ 64
    → length (chunks client.config.block_size old) ≤ 2 ^ 32
    → NoCollision client.blake3 client.config.block_size text (chunks client.config.block_size old)
    → client.lifetime path ≡ none
    → sink.closes ≡ none
    → tx.closes ≡ none
    → has_file_name path ≡ true
    → IsSorted (keys disk.contents)
    → Allows permits path
    → Downloaded client server exists action path text sink tx permits disk
download-Downloaded client server exists action path source old text sink tx permits disk downloads
      joins resolves holds finds reads same_hash pos fits few distinct lives sink_open tx_open named
      sorted allowed =
    let (signed, signs, rebuilt) =
      sign-send-write client.blake3 server.read source client.config.block_size old text tx pos fits
        few distinct reads tx_open in
    let ready : prepare_download client exists action (begun action (acted action sink)) ≡ (
      ok tt,
      writing (from_text action.path) (writer_of path signed.1 (latest action) []) (record sink {
        sent = (sink.sent ++ action_request action ∷ []) ++ signatures_request signed.0 ∷ [];
      }),
    ) =
      elim holds [
        | inl (there, reads_old) ↦
            prepared_old client exists action path old signed (acted action sink) joins resolves
              lives sink_open there reads_old signs
        | inr (missing, empty) ↦
            prepared_new client exists action path old signed (acted action sink) joins resolves
              lives sink_open missing
              (ok-injective signed (empty_signed client) (
                sym signs
                ∙ ap (sign_file client.blake3 client.config.block_size) empty
                ∙ sign_file-empty client pos))
      ] in
    record {
      signed = signed;
      deltas = rebuilt.deltas;
      server_sink = record rebuilt.sink { sent = rebuilt.sink.sent ++ complete_request ∷ [] };
      client_returns =
          client_run client exists action path signed.1 sink _ downloads sink_open sink_open ready
            rebuilt.deltas (complete_request ∷ []);
      server_returns =
          server_run server action source signed.0 tx rebuilt.sink downloads finds
            (ap (λ f. send_delta_from_block_signatures f server.read source signed.0 tx) same_hash
              ∙ rebuilt.returns)
            rebuilt.stays_open;
      server_sends =
          ap (λ sent. sent ++ complete_request ∷ []) rebuilt.sent
          ∙ append_assoc (tx.sent ++ requests rebuilt.deltas) (complete_request ∷ [])
              (complete_request ∷ [])
          ∙ append_assoc tx.sent (requests rebuilt.deltas)
              (complete_request ∷ complete_request ∷ []);
      stores =
          get-delta_writer permits path signed.1 _ rebuilt.deltas text disk rebuilt.wrote named
            sorted allowed;
    }
