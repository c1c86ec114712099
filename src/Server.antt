-- ===== src/Server.antt =====
-- `HarmonicService` of src/bin/server.rs. The lock makes each request's use of the sessions one
-- step. The parsers of dates and UUIDs, the walk over the disk and the clock are foreign.
pub mod Identity
pub mod Sessions
pub mod Start
use harmonic.Prelude.{ℕ, compare, Bool, true, if◌then◌else◌, Option, none, some, List}
use harmonic.Prelude.Int.{ℤ}
use harmonic.Text.{Bytes}
use harmonic.Path.{FilePath}
use harmonic.Error.{HarmonicError, Outcome, ok, err, panicked, unfinished}
use harmonic.Order.{Ord, compare-IsLawful}
use harmonic.BTree.{BTreeMap, get, insert}
use harmonic.Proto.{FileAction, ClientSyncState, ServerSyncStateResponse, SyncRequest}
use harmonic.Config.{Config}
use harmonic.State.{SyncState}
use harmonic.State.Generate.{Disk, Entry, generate_state}
use harmonic.State.Plan.{generate_sync_plan}
use harmonic.Sink.{Sink}
use harmonic.Handler.{Environment, Session, handle_sync_request_stream}

-- A `Uuid` is a number of 128 bits.
instance abbrev pub uuid_ord : Ord ℕ
uuid_ord = record { cmp = compare; lawful = compare-IsLawful }

pub record SessionData : Type 0 where
  pub timestamp_micros : ℤ
  pub local_state : SyncState
  pub sync_plan : List FileAction

pub record HarmonicService : Type 0 where
  pub sync_sessions : BTreeMap ℕ SessionData
  pub config : Config

-- The codes of `tonic::Status` in use.
pub data Status : Type 0 where
  invalid_argument internal not_found : Status

pub data Response {ℓ} (A : Type ℓ) : Type ℓ where
  response : A → Response A
  status : Status → Response A
  aborted : Response A

-- The foreign functions and the clock of a request.
pub record Foreign : Type 0 where
  pub blake3 : Bytes → Bytes
  pub disk : Disk
  pub walk : FilePath → List (Option Entry)
  pub valid_micros : ℤ → Bool
  pub parse_uuid : Bytes → Option ℕ
  pub now_micros : ℤ

abbrev pub or_internal {ℓ κ} :
    {A : Type ℓ} {B : Type κ}
    → HarmonicService
    → Outcome A
    → (A → Response B × HarmonicService)
    → Response B × HarmonicService
or_internal service (ok a) next = next a
or_internal service (err e) next = (status internal, service)
or_internal service panicked next = (aborted, service)
or_internal service unfinished next = (aborted, service)

abbrev pub or_status {ℓ κ} :
    {A : Type ℓ} {B : Type κ}
    → HarmonicService
    → Status
    → Option A
    → (A → Response B × HarmonicService)
    → Response B × HarmonicService
or_status service code (some a) next = next a
or_status service code none next = (status code, service)

-- The `insert` into the sessions, and the response.
unfoldable pub open_session :
    Foreign
    → Bytes
    → ℕ
    → SyncState
    → List FileAction
    → HarmonicService
    → Response ServerSyncStateResponse × HarmonicService
open_session foreign sync_uuid uuid state_now sync_plan service = (
  response (record {
    sync_uuid = sync_uuid;
    timestamp_micro = foreign.now_micros;
    sync_plan = sync_plan;
  }),
  record service {
    sync_sessions =
        insert uuid
          (record {
            timestamp_micros = foreign.now_micros;
            local_state = state_now;
            sync_plan = sync_plan;
          })
          service.sync_sessions;
  },
)

unfoldable pub harmonize_client_initiate_sync :
    Foreign → ClientSyncState → HarmonicService → Response ServerSyncStateResponse × HarmonicService
harmonize_client_initiate_sync foreign request service =
    if foreign.valid_micros request.timestamp_last_sync_micro
    then or_internal service
        (generate_state foreign.blake3 foreign.disk foreign.walk foreign.now_micros
          service.config.sync_path true)
        (λ state_now.
          or_internal service (generate_sync_plan state_now request.status_list) (λ sync_plan.
            or_status service invalid_argument (foreign.parse_uuid request.sync_uuid)
              (λ uuid. open_session foreign request.sync_uuid uuid state_now sync_plan service)))
    else (status invalid_argument, service)

-- `harmonize_sync_request`: `session_uuid` is the metadata of that name, where it is text.
unfoldable pub harmonize_sync_request :
    Foreign
    → Environment
    → Option Bytes
    → List (Option SyncRequest)
    → Sink
    → HarmonicService
    → Response (Outcome (Unit {0}) × Session) × HarmonicService
harmonize_sync_request foreign env session_uuid requests tx service =
    or_status service invalid_argument session_uuid (λ text.
      or_status service invalid_argument (foreign.parse_uuid text) (λ uuid.
        or_status service not_found (get uuid service.sync_sessions)
          (λ session. (response (handle_sync_request_stream env requests tx), service))))
