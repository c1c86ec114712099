-- ===== src/Handler/Writers.antt =====
-- Where the writers of src/sync/handler.rs and of the loop of src/bin/server.rs can be.
use harmonic.Prelude.{
  ℕ, zero, suc, true, Option, none, some, List, [], ◌∷◌, ◌++◌, All, ◌≡◌, ◌⊎◌, refl, Bool-cases,
  Option-cases, inl, inr,
}
use harmonic.Path.{FilePath}
use harmonic.Path.Spelling.{from_text}
use harmonic.Error.{Outcome, ok, err, panicked, unfinished}
use harmonic.Absolute.{get_absolute_path}
use harmonic.Proto.{
  FileAction, Delta, Payload, file_action, signatures, delta, complete, SyncRequest,
}
use harmonic.Text.{Bytes}
use harmonic.Io.{Io, done, not_found, failed}
use harmonic.Signatures.{or_empty, generate_blocks_signatures}
use harmonic.Proto.{direction_i32, download, upload, Timestamp, BlockSignatures}
use harmonic.Sink.{Sink, send}
use harmonic.State.Plan.{unwrap_or_default}
use harmonic.Transfer.{send_delta_from_block_signatures}
use harmonic.Writer.{BlockCache}
use harmonic.Handler.{
  Environment, Writer, Session, SyncStatus, continue, completed, eq_ℤ, after_sink, after_path,
  send_block_signatures_for_file, drop_writer, start_writer, handle_delta, handle_file_action,
  handle_signatures, handle_complete, handle_sync_payload, after_payload, receive,
  handle_sync_request_stream,
}

abbrev pub IsOpenAt : (FilePath → Type 0) → Option Writer → Type 0
IsOpenAt P none = Unit
IsOpenAt P (some w) = P w.path

-- The writers of a session, the open one and the closed ones, are for paths of a kind.
pub record Confined (P : FilePath → Type 0) (s : Session) : Type 0 where
  pub open_writer : IsOpenAt P s.writer_tx
  pub closed_writers : All (λ w. P w.path) s.closed

-- A file that is read or missing, or one that cannot be read.
Io-cases :
    (x : Io Bytes)
    → ((text : Bytes) × (or_empty x ≡ ok text)) ⊎ ((message : Bytes) × (x ≡ failed message))
Io-cases (done text) = inl (text, refl)
Io-cases not_found = inl ([], refl)
Io-cases (failed message) = inr (message, refl)

-- Signatures are sent only of a file that is read or missing.
signed-reads :
    (env : Environment) (p abs_path : FilePath) (cache : BlockCache) (tx : Sink)
    → get_absolute_path env.clean p env.config.sync_path ≡ ok abs_path
    → (send_block_signatures_for_file env p tx).0 ≡ ok cache
    → (text : Bytes) × (or_empty (env.read abs_path) ≡ ok text)
unfolding send_block_signatures_for_file generate_blocks_signatures
signed-reads env p abs_path cache tx resolves sent = elim (Io-cases (env.read abs_path)) [
  | inl read ↦ read
  | inr (message, broken) ↦
      let sent' = rw (resolves, send_block_signatures_for_file) at sent in
      let sent'' = rw broken at sent' in cc
]

-- The paths of a kind: to them belongs whatever a peer's path resolves to and is read or missing.
module _ (env : Environment) (P : FilePath → Type 0)
    (fits : (p abs_path : FilePath) (text : Bytes)
      → get_absolute_path env.clean p env.config.sync_path ≡ ok abs_path
      → or_empty (env.read abs_path) ≡ ok text
      → P abs_path) where
  All-append :
      (ws : List Writer) (w : Writer)
      → All (λ v. P v.path) ws
      → P w.path
      → All (λ v. P v.path) (ws ++ w ∷ [])
  All-append [] w h k = (k, tt)
  All-append (v ∷ ws) w h k = (h.0, All-append ws w h.1 k)

  drop_writer-Confined : (s : Session) → Confined P s → Confined P (drop_writer s)
  unfolding drop_writer
  drop_writer-Confined s c = go s.writer_tx c.open_writer
    where
      go :
          (w : Option Writer) → IsOpenAt P w → Confined P (drop_writer (record s { writer_tx = w }))
      go none h = record { open_writer = tt; closed_writers = c.closed_writers }
      go (some w) h = record {
        open_writer = tt;
        closed_writers = All-append s.closed w c.closed_writers h;
      }

  start_writer-Confined :
      (path : FilePath) (cache : BlockCache) (ts : Timestamp) (s : Session)
      → P path
      → Confined P s
      → Confined P (start_writer env path cache ts s)
  unfolding start_writer
  start_writer-Confined path cache ts s h c = record {
    open_writer = h;
    closed_writers = (drop_writer-Confined s c).closed_writers;
  }

  after_sink-Confined {ℓ} :
      {A : Type 0} {B : Type ℓ} (s : Session) (run : Outcome A × Sink)
      (next : A → Session → Outcome B × Session)
      → Confined P s
      → ((a : A) (tx : Sink)
          → run.0 ≡ ok a
          → Confined P (record s { tx = tx })
          → Confined P (next a (record s { tx = tx })).1)
      → Confined P (after_sink s run next).1
  after_sink-Confined s (ok a, tx) next c h =
      h a tx refl (record { open_writer = c.open_writer; closed_writers = c.closed_writers })
  after_sink-Confined s (err e, tx) next c h = record {
    open_writer = c.open_writer;
    closed_writers = c.closed_writers;
  }
  after_sink-Confined s (panicked, tx) next c h = record {
    open_writer = c.open_writer;
    closed_writers = c.closed_writers;
  }
  after_sink-Confined s (unfinished, tx) next c h = record {
    open_writer = c.open_writer;
    closed_writers = c.closed_writers;
  }

  after_path-Confined {ℓ} :
      {B : Type ℓ} (s : Session) (outcome : Outcome FilePath)
      (next : FilePath → Outcome B × Session)
      → Confined P s
      → ((path : FilePath) → outcome ≡ ok path → Confined P (next path).1)
      → Confined P (after_path s outcome next).1
  after_path-Confined s (ok path) next c h = h path refl
  after_path-Confined s (err e) next c h = c
  after_path-Confined s panicked next c h = c
  after_path-Confined s unfinished next c h = c

  handle_delta-Confined : (d : Delta) (s : Session) → Confined P s → Confined P (handle_delta d s).1
  unfolding handle_delta
  handle_delta-Confined d s c = go s.writer_tx c.open_writer
    where
      go :
          (w : Option Writer)
          → IsOpenAt P w
          → Confined P (handle_delta d (record s { writer_tx = w })).1
      go none h = record { open_writer = tt; closed_writers = c.closed_writers }
      go (some w) h = takes w.accepts
        where
          takes :
              (left : Option ℕ)
              → Confined P
                  (handle_delta d (record s { writer_tx = some (record w { accepts = left }) })).1
          takes none = record { open_writer = h; closed_writers = c.closed_writers }
          takes (some zero) = record { open_writer = h; closed_writers = c.closed_writers }
          takes (some (suc fewer)) = record { open_writer = h; closed_writers = c.closed_writers }

  handle_file_action-Confined :
      (action : FileAction) (s : Session)
      → Confined P s
      → Confined P (handle_file_action env action s).1
  unfolding handle_file_action
  handle_file_action-Confined action s c =
      elim (Bool-cases (eq_ℤ action.direction (direction_i32 download))) [
        | inl down ↦ rw (down, handle_file_action) at_path
        | inr not_down ↦ elim (Bool-cases (eq_ℤ action.direction (direction_i32 upload))) [
          | inl up ↦ rw (not_down, up, handle_file_action) uploads
          | inr not_up ↦ rw (not_down, not_up, handle_file_action) c
        ]
      ]
    where
      at : Session
      at = record s { file_path = from_text action.path }

      at_path : Confined P at
      at_path = record { open_writer = c.open_writer; closed_writers = c.closed_writers }

      uploads :
          Confined P
            (after_sink at (send_block_signatures_for_file env at.file_path at.tx) (λ cache s'.
              after_path s'
                (get_absolute_path env.clean s'.file_path env.config.sync_path)
                (λ abs_path. (
                  ok continue,
                  start_writer env abs_path cache
                      (unwrap_or_default action.timestamp_latest_modified)
                      s',
                )))).1
      uploads =
          after_sink-Confined at (send_block_signatures_for_file env at.file_path at.tx) _ at_path
            (λ cache tx' sent c'.
              after_path-Confined (record at { tx = tx' })
                (get_absolute_path env.clean at.file_path env.config.sync_path) _ c'
                (λ abs_path resolves.
                  let (text, holds) =
                    signed-reads env at.file_path abs_path cache at.tx resolves sent in
                  start_writer-Confined abs_path cache
                    (unwrap_or_default action.timestamp_latest_modified) (record at { tx = tx' })
                    (fits at.file_path abs_path text resolves holds) c'))

  handle_signatures-Confined :
      (block_signatures : BlockSignatures) (s : Session)
      → Confined P s
      → Confined P (handle_signatures env block_signatures s).1
  unfolding handle_signatures
  handle_signatures-Confined block_signatures s c =
      after_path-Confined s (get_absolute_path env.clean s.file_path env.config.sync_path) _ c
        (λ abs_path resolves.
          after_sink-Confined s
            (send_delta_from_block_signatures env.blake3 env.read abs_path block_signatures s.tx) _
            c (λ a tx' sent c'. c'))

  handle_complete-Confined : (s : Session) → Confined P s → Confined P (handle_complete s).1
  unfolding handle_complete
  handle_complete-Confined s c =
      after_sink-Confined s (send (record { payload = some (complete true) }) s.tx) _ c
        (λ a tx' sent c'. c')

  pub handle_sync_payload-Confined :
      (payload : Payload) (s : Session)
      → Confined P s
      → Confined P (handle_sync_payload env payload s).1
  unfolding handle_sync_payload
  handle_sync_payload-Confined (file_action action) s c = handle_file_action-Confined action s c
  handle_sync_payload-Confined (signatures b) s c = handle_signatures-Confined b s c
  handle_sync_payload-Confined (delta d) s c = handle_delta-Confined d s c
  handle_sync_payload-Confined (complete flag) s c = handle_complete-Confined s c

  after_payload-Confined :
      (run : Outcome SyncStatus × Session) (next : Session → Outcome (Unit {0}) × Session)
      → Confined P run.1
      → ((s : Session) → Confined P s → Confined P (next s).1)
      → Confined P (after_payload run next).1
  after_payload-Confined (ok continue, s) next c h = h s c
  after_payload-Confined (ok completed, s) next c h = c
  after_payload-Confined (err e, s) next c h = c
  after_payload-Confined (panicked, s) next c h = c
  after_payload-Confined (unfinished, s) next c h = c

  pub receive-Confined :
      (requests : List (Option SyncRequest)) (s : Session)
      → Confined P s
      → Confined P (receive env requests s).1
  unfolding receive
  receive-Confined [] s c = c
  receive-Confined (none ∷ requests) s c = c
  receive-Confined (some request ∷ requests) s c = elim (Option-cases request.payload) [
    | inl nothing ↦ rw (nothing, receive) (receive-Confined requests s c)
    | inr (payload, e) ↦
        rw (e, receive)
          (after_payload-Confined (handle_sync_payload env payload s) (receive env requests)
            (handle_sync_payload-Confined payload s c) (λ s' c'. receive-Confined requests s' c'))
  ]

-- Nothing stays open behind `drop_writer`.
drop_writer-none : (s : Session) → (drop_writer s).writer_tx ≡ none
unfolding drop_writer
drop_writer-none s = go s.writer_tx
  where
    go : (w : Option Writer) → (drop_writer (record s { writer_tx = w })).writer_tx ≡ none
    go none = refl
    go (some w) = refl

-- Whatever is received on a stream, and however the run of the loop ends: no writer stays open, and
-- each closed one is for a path of the kind.
pub stream-Confined :
    (env : Environment) (P : FilePath → Type 0) (requests : List (Option SyncRequest)) (tx : Sink)
    → ((p abs_path : FilePath) (text : Bytes)
        → get_absolute_path env.clean p env.config.sync_path ≡ ok abs_path
        → or_empty (env.read abs_path) ≡ ok text
        → P abs_path)
    → ((handle_sync_request_stream env requests tx).1.writer_tx ≡ none)
      × All (λ w. P w.path) (handle_sync_request_stream env requests tx).1.closed
unfolding handle_sync_request_stream
stream-Confined env P requests tx fits =
    let begin : Session = record { file_path = []; writer_tx = none; closed = []; tx = tx } in
    let ended =
      receive-Confined env P fits requests begin
        (record { open_writer = tt; closed_writers = tt }) in
    (
      drop_writer-none (receive env requests begin).1,
      (drop_writer-Confined env P fits (receive env requests begin).1 ended).closed_writers,
    )
