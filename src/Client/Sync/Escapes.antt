-- ===== src/Client/Sync/Escapes.antt =====
-- `sync_file` of src/bin/client.rs does not check the path of an action that says download.
use harmonic.Prelude.{Bool, true, false, none, some, List, [], ◌∷◌, ◌++◌, map, ◌≡◌, refl, ap}
use harmonic.Path.{FilePath, is_absolute, join}
use harmonic.Path.Spelling.{from_text}
use harmonic.Error.{ok, err, path_error}
use harmonic.Absolute.{get_absolute_path}
use harmonic.Proto.{FileAction, download, direction_i32, Delta}
use harmonic.Sink.{Sink}
use harmonic.Signatures.{generate_blocks_signatures}
use harmonic.Transfer.Runs.{requests, send_open}
use harmonic.Transfer.Rebuild.{complete_request}
use harmonic.Writer.{BlockCache}
use harmonic.Handler.{Environment, start_writer, drop_writer, send_block_signatures_for_file}
use harmonic.Handler.Receive.{writer_of, writing}
use harmonic.Handler.Signed.{signatures_request}
use harmonic.Client.Sync.{
  send_own_signatures, own_cache, prepare_download, sync_file, empty_signatures,
}
use harmonic.Client.Sync.Steps.{begun, latest, acted, client_run}

abbrev no_blocks : BlockCache
no_blocks = record { blocks = [] }

module _ (env : Environment) (exists : FilePath → Bool) (action : FileAction) (tx : Sink)
    (absolute : is_absolute (from_text action.path) ≡ true)
    (lives : env.lifetime (from_text action.path) ≡ none) (open_channel : tx.closes ≡ none) where
  abbrev p : FilePath
  p = from_text action.path

  joins : join env.config.sync_path p ≡ p
  unfolding join
  joins = rw absolute refl

  refused : get_absolute_path env.clean p env.config.sync_path ≡ err (path_error p)
  unfolding get_absolute_path
  refused = rw absolute refl

  sends :
      (there : Bool)
      → (after : Sink) × (after.closes ≡ none)
        × (send_own_signatures env there p tx ≡ (ok tt, after))
  unfolding send_own_signatures send_block_signatures_for_file generate_blocks_signatures
  sends true = (tx, open_channel, rw (refused) refl)
  sends false = (
    record tx { sent = tx.sent ++ signatures_request (empty_signatures env) ∷ [] },
    open_channel,
    rw (send_open (signatures_request (empty_signatures env)) tx open_channel) refl,
  )

  caches : (there : Bool) → own_cache env there p ≡ ok no_blocks
  unfolding own_cache generate_blocks_signatures
  caches true = rw (refused) refl
  caches false = refl

  ready :
      (after : Sink) × (after.closes ≡ none)
      × (prepare_download env exists action (begun action tx)
          ≡ (ok tt, writing p (writer_of p no_blocks (latest action) []) after))
  unfolding prepare_download start_writer drop_writer
  ready =
      let (after, stays, sent) = sends (exists p) in
      (
        after,
        stays,
        rw (joins, prepare_download) (rw sent (rw (caches (exists p)) (rw lives refl))),
      )

-- Let a server plan a download at an absolute path. Wherever the synchronised directory of the client is, and
-- whether there is a file at that path or not, the client's run on the deltas that the server then sends
-- returns without an error, and it has handed all of them to a writer for that very path.
pub sync_file-absolute :
    (env : Environment) (exists : FilePath → Bool) (action : FileAction) (sink : Sink)
    (deltas : List Delta)
    → action.direction ≡ direction_i32 download
    → is_absolute (from_text action.path) ≡ true
    → env.lifetime (from_text action.path) ≡ none
    → sink.closes ≡ none
    → ((sync_file env exists action (map some (requests deltas ++ complete_request ∷ [])) sink).0
        ≡ ok tt)
      × ((sync_file env exists action
            (map some (requests deltas ++ complete_request ∷ []))
            sink).1.closed
          ≡ writer_of (from_text action.path) (record { blocks = [] }) (latest action) deltas ∷ [])
sync_file-absolute env exists action sink deltas downloads absolute lives sink_open =
    let (after, stays, prepared) =
      ready env exists action (acted action sink) absolute lives sink_open in
    let run =
      client_run env exists action (from_text action.path) no_blocks sink after downloads sink_open
        stays prepared deltas [] in
    (ap (λ r. r.0) run, ap (λ r. r.1.closed) run)
