-- ===== src/Handler/Receive.antt =====
-- How the loop of src/bin/server.rs takes a sender's messages: its deltas, and then `complete`.
use harmonic.Prelude.{none, some, List, [], ◌∷◌, ◌++◌, map, append_assoc, append-nil}
use harmonic.Prelude.{◌≡◌, sym, ap, ◌∙◌}
use harmonic.Path.{FilePath}
use harmonic.Error.{Outcome, ok}
use harmonic.Proto.{Timestamp, Delta, SyncRequest}
use harmonic.Sink.{Sink}
use harmonic.Transfer.Runs.{requests, send_open}
use harmonic.Transfer.Rebuild.{complete_request}
use harmonic.Writer.{BlockCache}
use harmonic.Handler.{
  Environment, Writer, Session, handle_delta, handle_complete, handle_sync_payload, receive,
}

-- A writer whose task takes all that comes.
abbrev pub writer_of : FilePath → BlockCache → Timestamp → List Delta → Writer
writer_of path cache ts deltas = record {
  path = path;
  cache = cache;
  modified_ts = ts;
  accepted = deltas;
  accepts = none;
}

abbrev pub writing : FilePath → Writer → Sink → Session
writing p w tx = record { file_path = p; writer_tx = some w; closed = []; tx = tx }

module _ (env : Environment) (p path : FilePath) (cache : BlockCache) (ts : Timestamp) (tx : Sink)
    (open_channel : tx.closes ≡ none) (rest : List SyncRequest) where
  abbrev pub finished : List Delta → Outcome (Unit {0}) × Session
  finished deltas = (
    ok tt,
    writing p (writer_of path cache ts deltas)
        (record tx { sent = tx.sent ++ complete_request ∷ [] }),
  )

  -- The deltas reach the writer, and the loop ends at `complete`: what comes after is not read.
  pub receive-deltas :
      (deltas taken : List Delta)
      → receive env
          (map some (requests deltas ++ complete_request ∷ rest))
          (writing p (writer_of path cache ts taken) tx)
        ≡ finished (taken ++ deltas)
  unfolding receive handle_sync_payload handle_delta handle_complete
  receive-deltas [] taken =
      rw (send_open complete_request tx open_channel) (ap finished (sym (append-nil taken)))
  receive-deltas (d ∷ deltas) taken =
      receive-deltas deltas (taken ++ d ∷ []) ∙ ap finished (append_assoc taken (d ∷ []) deltas)
