-- ===== src/Examples/Services.antt =====
-- The properties of the server's services and of the client's watcher at concrete inputs.
use harmonic.Prelude.{
  suc, ◌+◌, ◌*◌, ◌^◌, ◌≤◌, ◌<◌, bytes_eq, true, Option, none, some, List, [], ◌∷◌,
}
use harmonic.Prelude.{length, ◌≡◌, ◌∙◌, refl, sym, ap, arith}
use harmonic.Prelude.Int.{pos}
use harmonic.Text.{Bytes, is_utf8, utf8_from}
use harmonic.Path.{FilePath}
use harmonic.Io.{Io, done, not_found}
use harmonic.Error.{ok, err, config_error, ok-injective}
use harmonic.Config.Load.{entered, load_config, handle_no_config, save_config}
use harmonic.Config.Runs.{load_config-again}
use harmonic.Config.{Config}
use harmonic.Proto.{ClientSyncState, ServerSyncStateResponse}
use harmonic.Sink.{Sink}
use harmonic.BTree.{keys, collect_set}
use harmonic.State.Generate.{since_epoch, insert_files, wanted_files, generate_state}
use harmonic.State.Plan.{insert_remote, plan_actions, plan_paths, generate_sync_plan}
use harmonic.Bootstrap.{BootstrapService, certificate, get_certificate, serve}
use harmonic.Bootstrap.Once.{certificates, serve-certificates, Shown, get_certificate-Shown}
use harmonic.Client.{EventKind, any, access, create, modify, remove, other, calculate_change_score}
use harmonic.Client.{Watch, start_watcher}
use harmonic.Client.Triggers.{total, start_watcher-keeps}
use harmonic.Handler.{Environment, handle_sync_request_stream}
use harmonic.Server.{
  HarmonicService, response, Foreign, open_session, harmonize_client_initiate_sync,
  harmonize_sync_request,
}
use harmonic.Server.Sessions.{initiate-serve}

abbrev read : FilePath → Io Bytes
read path = done (7 ∷ [])

abbrev service : BootstrapService
service = record { otp = some (1 ∷ 2 ∷ [], 100); cert_path = [] }

serve-certificates_example :
    certificates (serve read ((200, 1 ∷ 2 ∷ []) ∷ (300, 1 ∷ 2 ∷ []) ∷ []) service) ≤ 1
serve-certificates_example =
    serve-certificates read ((200, 1 ∷ 2 ∷ []) ∷ (300, 1 ∷ 2 ∷ []) ∷ []) service

given :
    get_certificate read 200 (1 ∷ 2 ∷ []) service
    ≡ (certificate (7 ∷ []), record { otp = none; cert_path = [] })
unfolding get_certificate bytes_eq
given = refl

get_certificate-Shown_example :
    Shown read 200 (1 ∷ 2 ∷ []) (7 ∷ []) service (record { otp = none; cert_path = [] })
get_certificate-Shown_example =
    get_certificate-Shown read 200 (1 ∷ 2 ∷ []) (7 ∷ []) service
      (record { otp = none; cert_path = [] }) given

abbrev config : Config
config = record {
  sync_path = [];
  socket_addr = [];
  schedule_delay = 3600;
  log_level = [];
  sync_threshold = 20;
  modify_weight = 2;
  remove_weight = 5;
  create_weight = 10;
  block_size = 8192;
}

weights : (kind : EventKind) → config.sync_threshold + calculate_change_score kind config < 2 ^ 64
unfolding calculate_change_score
weights any = omega arith
weights access = omega arith
weights create = omega arith
weights modify = omega arith
weights remove = omega arith
weights other = omega arith

abbrev events : List (Option EventKind)
events = some create ∷ some create ∷ some modify ∷ some remove ∷ []

abbrev idle : Watch
idle = record { change_score = 0; queue = [] }

start_watcher-keeps_example :
    ((start_watcher config events idle).change_score ≤ config.sync_threshold)
    × (length (start_watcher config events idle).queue * suc config.sync_threshold
          + (start_watcher config events idle).change_score
        ≤ length idle.queue * suc config.sync_threshold + idle.change_score + total config events)
start_watcher-keeps_example = start_watcher-keeps config events idle weights (omega arith)

abbrev foreign : Foreign
foreign = record {
  blake3 = λ text. text;
  disk = record { read = read; modified = λ p. done (since_epoch 0 0) };
  walk = λ p. [];
  valid_micros = λ m. true;
  parse_uuid = λ text. some 5;
  now_micros = pos 9;
}

abbrev request : ClientSyncState
request = record { sync_uuid = 5 ∷ []; timestamp_last_sync_micro = pos 0; status_list = [] }

abbrev harmonic_service : HarmonicService
harmonic_service = record { sync_sessions = []; config = config }

abbrev plan : ServerSyncStateResponse
plan = record { sync_uuid = 5 ∷ []; timestamp_micro = pos 9; sync_plan = [] }

abbrev after : HarmonicService
after =
    (open_session foreign request.sync_uuid 5
      (record { last_sync_timestamp_micros = pos 9; tree = [] }) [] harmonic_service).1

planned : harmonize_client_initiate_sync foreign request harmonic_service ≡ (response plan, after)
unfolding harmonize_client_initiate_sync open_session generate_state wanted_files insert_files
    generate_sync_plan insert_remote plan_paths plan_actions keys collect_set
planned = refl

abbrev env : Environment
env = record {
  clean = λ p. p;
  blake3 = λ text. text;
  read = read;
  lifetime = λ p. none;
  config = config;
}

abbrev open_sink : Sink
open_sink = record { sent = []; closes = none }

initiate-serve_example :
    harmonize_sync_request foreign env (some request.sync_uuid) [] open_sink after
    ≡ (response (handle_sync_request_stream env [] open_sink), after)
initiate-serve_example =
    initiate-serve foreign env request harmonic_service after plan [] open_sink planned

abbrev Disk : Type 0
Disk = Option Bytes

abbrev read_disk : FilePath → Disk → Io Bytes
read_disk p none = not_found
read_disk p (some text) = done text

abbrev write_disk : FilePath → Bytes → Disk → Io Disk
write_disk p text d = done (some text)

abbrev first : Config
first = entered [] (b'd' ∷ []) (b'a' ∷ [])

kept :
    (p : FilePath) (text : Bytes) (d d' : Disk)
    → write_disk p text d ≡ done d'
    → read_disk p d' ≡ done text
kept p text d none e = cc
kept p text d (some t) e = cc

asked :
    load_config
      (λ text. ok first)
      (λ level. true)
      read_disk
      (λ d.
        handle_no_config []
          (b'd' ∷ [])
          (b'a' ∷ [])
          (λ k. save_config (λ c. ok []) (λ p e. done e) write_disk k d))
      none
    ≡ ok (first, some [])
unfolding load_config handle_no_config save_config
asked = refl

text_is_utf8 : is_utf8 [] ≡ true
unfolding is_utf8 utf8_from
text_is_utf8 = refl

load_config-again_example :
    (load_config (λ text. ok first) (λ level. true) read_disk (λ d. err config_error) (some [])
      ≡ ok (first, some []))
    × (true ≡ true)
load_config-again_example =
    load_config-again (λ text. ok first) (λ c. ok []) (λ level. true) read_disk (λ p e. done e)
      write_disk [] (b'd' ∷ []) (b'a' ∷ []) (λ d. err config_error) none (some []) first kept
      (λ text e. (refl, ap is_utf8 (sym (ok-injective [] text e)) ∙ text_is_utf8)) refl asked
