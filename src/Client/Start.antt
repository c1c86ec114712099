-- ===== src/Client/Start.antt =====
-- src/bin/client.rs: a synchronisation from the certificate on, and the start of the client.
use harmonic.Prelude.{Bool, ◌||◌, if◌then◌else◌, List}
use harmonic.Text.{Bytes}
use harmonic.Error.{Outcome, ok, err, panicked, unfinished}
use harmonic.Proto.{ClientSyncState, ServerSyncStateResponse, FileAction}
use harmonic.State.{SyncState}
use harmonic.Config.{Config}
use harmonic.Config.Load.{server_uri}
use harmonic.Config.Address.{Hosts}
use harmonic.Storage.{Contents, Stored, then_on}
use harmonic.Client.Sync.{run_sync}
use harmonic.Client.Cert.{Process, started, Surroundings, get_cert}

pub record Args : Type 0 where
  pub bootstrap : Bool
  pub schedule : Bool
  pub event_based : Bool

-- What a synchronisation calls: the connection to an address, which trusts a certificate, the state
-- file, the walk of the directory, and the requests.
pub record Calls : Type 0 where
  pub connect : Bytes → Bytes → Outcome (Unit {0})
  pub load_state : Stored SyncState
  pub generate_state : Stored SyncState
  pub initiate : ClientSyncState → Outcome ServerSyncStateResponse
  pub transfer : List FileAction → Stored (Unit {0})
  pub save_state : SyncState → Stored (Unit {0})
  pub sync_uuid : Bytes

-- The whole of `run_sync`.
unfoldable pub connected_sync :
    Hosts
    → Config
    → Surroundings
    → Calls
    → Process
    → Contents
    → Outcome (Unit {0}) × Process × Contents
connected_sync hosts config s c p disk =
    let cert = get_cert hosts config.socket_addr s p disk in
    let run =
      then_on (cert.0, cert.2)
        (λ pem disk1.
          then_on (c.connect (server_uri config) pem, disk1)
            (λ channel disk2.
              run_sync c.load_state c.generate_state c.initiate c.transfer c.save_state c.sync_uuid
                disk2)) in
    (run.0, cert.1, run.1)

-- How the process ends; `looping` with the watcher, the scheduler or both is the loop over the queue.
pub data Ending : Type 0 where
  success failure pending : Ending
  looping : Bool → Bool → Ending

-- `trigger_sync_task`, awaited: the task logs an error and ends, so that only a panic is an error of
-- its handle.
unfoldable pub trigger_sync_task : Outcome (Unit {0}) → Ending
trigger_sync_task (ok synced) = success
trigger_sync_task (err e) = success
trigger_sync_task panicked = failure
trigger_sync_task unfinished = pending

-- `main`, with the configuration as it is loaded when it is first used: an error of it is a panic.
unfoldable pub main :
    Hosts → Outcome Config → Args → Surroundings → Calls → Contents → Ending × Process × Contents
main hosts (err e) args s c disk = (failure, started args.bootstrap, disk)
main hosts panicked args s c disk = (failure, started args.bootstrap, disk)
main hosts unfinished args s c disk = (pending, started args.bootstrap, disk)
main hosts (ok config) args s c disk =
    let run = connected_sync hosts config s c (started args.bootstrap) disk in
    if args.event_based || args.schedule
    then (looping args.event_based args.schedule, started args.bootstrap, disk)
    else (trigger_sync_task run.0, run.1, run.2)
