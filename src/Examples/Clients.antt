-- ===== src/Examples/Clients.antt =====
-- The properties of the client's runs at concrete inputs.
use harmonic.Prelude.{◌+◌, ◌^◌, ◌≤◌, ◌<◌, true, none, some, [], ◌∷◌, ◌++◌, bytes_eq}
use harmonic.Prelude.{length, replicate, ◌≡◌, refl, inl, arith}
use harmonic.Prelude.Int.{pos}
use harmonic.Text.{Bytes, is_utf8, utf8_from}
use harmonic.Path.{FilePath, root_dir, normal, is_absolute, starts_with, append, join}
use harmonic.Path.Spelling.{from_text, split, components}
use harmonic.Error.{ok, err, config_error}
use harmonic.Io.{done}
use harmonic.Config.{Config}
use harmonic.Absolute.{get_absolute_path}
use harmonic.Proto.{FileAction, download, upload, direction_i32, default_timestamp}
use harmonic.Sink.{Sink}
use harmonic.BTree.{collect_set, keys}
use harmonic.BTree.Laws.{IsSorted}
use harmonic.Path.Keys.{path_ord}
use harmonic.Writer.Temporary.{has_file_name}
use harmonic.Writer.Target.{Files, Permits}
use harmonic.State.{SyncState}
use harmonic.State.Compare.{compare_states, differences, all_paths, visible}
use harmonic.Signatures.{chunks, chunks_from}
use harmonic.Handler.{Environment}
use harmonic.Client.Sync.{status_list, send_state_to_server, run_sync}
use harmonic.Client.Sync.Download.{Downloaded, download-Downloaded}
use harmonic.Client.Sync.Upload.{Delivered, upload-Delivered}
use harmonic.Client.Sync.Saves.{returning, run_sync-load_state}
use harmonic.Io.{Io}
use harmonic.Storage.{Contents, no_faults, then_on}
use harmonic.Storage
use harmonic.Storage.Laws.{read-get}
use harmonic.BTree.{get, insert}
use harmonic.BTree.Laws.{get-insert_same}
use harmonic.State.Saved.{state_file_path, save_state, load_state}
use harmonic.Error.{Outcome, ok-injective}
use harmonic.Prelude.{sym, ap, ◌∙◌}
use harmonic.Client.Sync.Escapes.{sync_file-absolute}
use harmonic.Client.Sync.Steps.{latest}
use harmonic.Client.Sync.{sync_file}
use harmonic.Handler.Receive.{writer_of}
use harmonic.Transfer.Runs.{requests}
use harmonic.Transfer.Rebuild.{complete_request}
use harmonic.Proto.{Delta, literal}
use harmonic.Prelude.{List, map, false}

abbrev nines : Bytes
nines = replicate 32 9

abbrev new_text : Bytes
new_text = 1 ∷ nines

abbrev directory : FilePath
directory = root_dir ∷ normal (b'd' ∷ []) ∷ []

abbrev file : FilePath
file = directory ++ normal (b'f' ∷ []) ∷ []

abbrev config : Config
config = record {
  sync_path = directory;
  socket_addr = [];
  schedule_delay = 3600;
  log_level = [];
  sync_threshold = 20;
  modify_weight = 2;
  remove_weight = 5;
  create_weight = 10;
  block_size = 32;
}

abbrev side : Bytes → Environment
side text = record {
  clean = λ p. p;
  blake3 = λ block. block;
  read = λ p. done text;
  lifetime = λ p. none;
  config = config;
}

abbrev action : FileAction
action = record {
  path = b'f' ∷ [];
  direction = direction_i32 download;
  timestamp_latest_modified = some default_timestamp;
}

abbrev open_sink : Sink
open_sink = record { sent = []; closes = none }

joined : join directory (from_text action.path) ≡ file
unfolding join append is_absolute from_text split components bytes_eq
joined = refl

resolved :
    (text : Bytes) → get_absolute_path (side text).clean (from_text action.path) directory ≡ ok file
unfolding get_absolute_path join append is_absolute starts_with from_text split components bytes_eq
resolved text = refl

few : length (chunks 32 nines) ≤ 2 ^ 32
unfolding chunks chunks_from
few = omega arith

sizes : length new_text + 32 < 2 ^ 64
sizes = omega arith

abbrev permits : Permits
permits = record {
  creates = λ p. true;
  takes = none;
  flushes = true;
  renames = λ p q. true;
  sets_time = λ p ft. true;
}

abbrev disk : Files
disk = record { contents = (file, nines) ∷ []; times = [] }

named : has_file_name file ≡ true
unfolding has_file_name
named = refl

sorted : IsSorted (keys disk.contents)
unfolding keys
sorted = (tt, tt)

download-Downloaded_example :
    Downloaded
      (side nines)
      (side new_text)
      (λ p. true)
      action
      file
      new_text
      open_sink
      open_sink
      permits
      disk
download-Downloaded_example =
    download-Downloaded (side nines) (side new_text) (λ p. true) action file file nines new_text
      open_sink open_sink permits disk refl joined (resolved nines) (inl (refl, refl))
      (resolved new_text) refl refl (omega arith) sizes few (λ i k chunk found same. same) refl refl
      refl named sorted (refl, refl, refl, refl)

abbrev upload_action : FileAction
upload_action = record action { direction = direction_i32 upload }

upload-Delivered_example :
    Delivered
      (side new_text)
      (side nines)
      (λ p. true)
      upload_action
      file
      new_text
      open_sink
      open_sink
      permits
      disk
upload-Delivered_example =
    upload-Delivered (side new_text) (side nines) (λ p. true) upload_action file file nines new_text
      open_sink open_sink permits disk refl (resolved new_text) refl (resolved nines) refl refl
      (omega arith) sizes few (λ i k chunk found same. same) refl refl refl named sorted
      (refl, refl, refl, refl)

abbrev outside : FileAction
outside = record action { path = b'/' ∷ b'f' ∷ [] }

leads_out : is_absolute (from_text outside.path) ≡ true
unfolding is_absolute from_text split components
leads_out = refl

abbrev one_delta : List Delta
one_delta = record { index = 0; instruction = some (literal (1 ∷ [])) } ∷ []

sync_file-absolute_example :
    ((sync_file
        (side nines)
        (λ p. false)
        outside
        (map some (requests one_delta ++ complete_request ∷ []))
        open_sink).0
      ≡ ok tt)
    × ((sync_file
          (side nines)
          (λ p. false)
          outside
          (map some (requests one_delta ++ complete_request ∷ []))
          open_sink).1.closed
        ≡ writer_of (from_text outside.path) (record { blocks = [] }) (latest outside) one_delta
          ∷ [])
sync_file-absolute_example =
    sync_file-absolute (side nines) (λ p. false) outside open_sink one_delta refl leads_out refl
      refl

abbrev no_state : SyncState
no_state = record { last_sync_timestamp_micros = pos 0; tree = [] }

abbrev reads : FilePath → Contents → Io Bytes
reads p d = Storage.read no_faults p d

abbrev writes : FilePath → Bytes → Contents → Io Contents
writes p text d = done (insert p text d)

disk_of : Contents → Io Contents → Contents
disk_of d (done d') = d'
disk_of d _ = d

keeps :
    (p : FilePath) (text : Bytes) (d d' : Contents)
    → writes p text d ≡ done d'
    → reads p d' ≡ done text
unfolding disk_of
keeps p text d d' e =
    (read-get no_faults p text d' refl
      (ap (get p) (sym (ap (disk_of d) e)) ∙ get-insert_same p text d)).0

abbrev fails : List FileAction → Contents → Outcome (Unit {0}) × Contents
fails actions d = (err config_error, d)

abbrev saved : Contents
saved = (state_file_path, 1 ∷ []) ∷ []

-- A run whose transfer fails.
ran :
    run_sync
      (λ d. (load_state (λ text. ok no_state) (λ p. reads p d), d))
      (λ d. (ok no_state, d))
      (λ request. ok (record { sync_uuid = []; timestamp_micro = pos 9; sync_plan = [] }))
      fails
      (λ state d. returning (save_state (λ k. ok (1 ∷ [])) writes state d) d)
      []
      []
    ≡ (ok tt, saved)
unfolding run_sync load_state save_state Storage.read get insert compare_states differences
    all_paths visible keys collect_set send_state_to_server status_list
ran = refl

ascii : (text : Bytes) → ◌≡◌ {A = Outcome Bytes} (ok (1 ∷ [])) (ok text) → is_utf8 text ≡ true
unfolding is_utf8 utf8_from
ascii text e = ap is_utf8 (sym (ok-injective (1 ∷ []) text e))

run_sync-load_state_example : load_state (λ text. ok no_state) (λ p. reads p saved) ≡ ok no_state
run_sync-load_state_example =
    run_sync-load_state (λ k. ok (1 ∷ [])) (λ text. ok no_state) reads writes
      (λ d. (ok no_state, d))
      (λ request. ok (record { sync_uuid = []; timestamp_micro = pos 9; sync_plan = [] })) fails []
      no_state no_state [] [] saved keeps (λ text e. (refl, ascii text e)) refl ran
