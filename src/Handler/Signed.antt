-- ===== src/Handler/Signed.antt =====
-- The signatures that a receiver of a file sends (`send_block_signatures_for_file` of
-- src/sync/transfer.rs), as a message.
use harmonic.Prelude.{none, some, [], ◌∷◌, ◌++◌, ◌≡◌, refl}
use harmonic.Text.{Bytes}
use harmonic.Path.{FilePath}
use harmonic.Error.{ok}
use harmonic.Absolute.{get_absolute_path}
use harmonic.Proto.{FileAction, file_action, signatures, BlockSignatures, SyncRequest}
use harmonic.Sink.{Sink}
use harmonic.Signatures.{sign_file, or_empty, generate_blocks_signatures}
use harmonic.Transfer.Runs.{send_open}
use harmonic.Writer.{BlockCache}
use harmonic.Handler.{Environment, send_block_signatures_for_file}

abbrev pub signatures_request : BlockSignatures → SyncRequest
signatures_request block_signatures = record { payload = some (signatures block_signatures) }

abbrev pub action_request : FileAction → SyncRequest
action_request action = record { payload = some (file_action action) }

module _ (env : Environment) (p path : FilePath) (old : Bytes)
    (signed : BlockSignatures × BlockCache) (tx : Sink)
    (resolves : get_absolute_path env.clean p env.config.sync_path ≡ ok path)
    (holds : or_empty (env.read path) ≡ ok old)
    (signs : sign_file env.blake3 env.config.block_size old ≡ ok signed)
    (open_channel : tx.closes ≡ none) where
  pub generate-Signed :
      generate_blocks_signatures env.clean env.blake3 env.read p env.config ≡ ok signed
  unfolding generate_blocks_signatures
  generate-Signed = rw (resolves, holds, signs) refl

  pub send_block_signatures-Signed :
      send_block_signatures_for_file env p tx
      ≡ (ok signed.1, record tx { sent = tx.sent ++ signatures_request signed.0 ∷ [] })
  unfolding send_block_signatures_for_file
  send_block_signatures-Signed =
      rw (generate-Signed, send_open (signatures_request signed.0) tx open_channel) refl
