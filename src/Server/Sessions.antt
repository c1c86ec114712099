-- ===== src/Server/Sessions.antt =====
-- How the two requests to `HarmonicService` of src/bin/server.rs share its sessions.
use harmonic.Prelude.{ℕ, true, false, Option, none, some, List}
use harmonic.Prelude.{◌≡◌, ◌≢◌, refl, sym, ap, ◌∙◌, inl, inr, Bool-cases}
use harmonic.Error.{HarmonicError, Outcome, ok, err, panicked, unfinished}
use harmonic.BTree.{get}
use harmonic.BTree.Laws.{get-insert_same, get-insert_other}
use harmonic.Proto.{FileAction, ClientSyncState, ServerSyncStateResponse, SyncRequest}
use harmonic.State.{SyncState}
use harmonic.State.Generate.{generate_state}
use harmonic.State.Plan.{generate_sync_plan}
use harmonic.Sink.{Sink}
use harmonic.Handler.{Environment, handle_sync_request_stream}
use harmonic.Server.{
  uuid_ord, SessionData, HarmonicService, Response, response, status, aborted, Foreign, or_internal,
  or_status, invalid_argument, internal, open_session, harmonize_client_initiate_sync,
  harmonize_sync_request,
}

-- The state that the service walks over.
abbrev pub state_of : Foreign → HarmonicService → Outcome SyncState
state_of foreign service =
    generate_state foreign.blake3 foreign.disk foreign.walk foreign.now_micros
      service.config.sync_path true

abbrev pub session_of : Foreign → SyncState → List FileAction → SessionData
session_of foreign state_now plan = record {
  timestamp_micros = foreign.now_micros;
  local_state = state_now;
  sync_plan = plan;
}

-- A service with one more session: it is found under its identifier, and the others are as before.
pub record Opened (uuid : ℕ) (session : SessionData) (before after : HarmonicService) : Type 0 where
  pub found : get uuid after.sync_sessions ≡ some session
  pub others :
      (other : ℕ) → other ≢ uuid → get other after.sync_sessions ≡ get other before.sync_sessions
  pub same_config : after.config ≡ before.config

-- Why a request for a plan gets none, and what it gets.
pub data Refusal (foreign : Foreign) (request : ClientSyncState) (service : HarmonicService)
    : Response ServerSyncStateResponse → Type 0 where
  bad_timestamp :
      foreign.valid_micros request.timestamp_last_sync_micro ≡ false
      → Refusal foreign request service (status invalid_argument)
  no_state :
      (e : HarmonicError)
      → state_of foreign service ≡ err e
      → Refusal foreign request service (status internal)
  no_plan :
      (state_now : SyncState) (e : HarmonicError)
      → state_of foreign service ≡ ok state_now
      → generate_sync_plan state_now request.status_list ≡ err e
      → Refusal foreign request service (status internal)
  bad_uuid :
      (state_now : SyncState) (plan : List FileAction)
      → state_of foreign service ≡ ok state_now
      → generate_sync_plan state_now request.status_list ≡ ok plan
      → foreign.parse_uuid request.sync_uuid ≡ none
      → Refusal foreign request service (status invalid_argument)
  state_panics :
      ((state_now : SyncState) → state_of foreign service ≢ ok state_now)
      → ((e : HarmonicError) → state_of foreign service ≢ err e)
      → Refusal foreign request service aborted
  plan_panics :
      (state_now : SyncState)
      → state_of foreign service ≡ ok state_now
      → ((plan : List FileAction) → generate_sync_plan state_now request.status_list ≢ ok plan)
      → ((e : HarmonicError) → generate_sync_plan state_now request.status_list ≢ err e)
      → Refusal foreign request service aborted

-- A reply to a request for a plan, and the service behind it.
pub data Initiated (foreign : Foreign) (request : ClientSyncState) (service : HarmonicService)
    : Response ServerSyncStateResponse × HarmonicService → Type 0 where
  opened :
      (uuid : ℕ) (state_now : SyncState) (plan : List FileAction) (after : HarmonicService)
      → foreign.valid_micros request.timestamp_last_sync_micro ≡ true
      → state_of foreign service ≡ ok state_now
      → generate_sync_plan state_now request.status_list ≡ ok plan
      → foreign.parse_uuid request.sync_uuid ≡ some uuid
      → Opened uuid (session_of foreign state_now plan) service after
      → Initiated foreign request service (
        response (record {
          sync_uuid = request.sync_uuid;
          timestamp_micro = foreign.now_micros;
          sync_plan = plan;
        }),
        after,
      )
  refused :
      (reply : Response ServerSyncStateResponse)
      → Refusal foreign request service reply
      → Initiated foreign request service (reply, service)

Refusal-differs :
    {foreign : Foreign} {request : ClientSyncState} {service : HarmonicService}
    {reply : Response ServerSyncStateResponse}
    → Refusal foreign request service reply
    → (plan : ServerSyncStateResponse) → reply ≢ response plan
Refusal-differs (bad_timestamp h) plan e = cc
Refusal-differs (no_state x h) plan e = cc
Refusal-differs (no_plan s x h k) plan e = cc
Refusal-differs (bad_uuid s p h k l) plan e = cc
Refusal-differs (state_panics h k) plan e = cc
Refusal-differs (plan_panics s h k l) plan e = cc

module _ (foreign : Foreign) (request : ClientSyncState) (service : HarmonicService)
    (valid : foreign.valid_micros request.timestamp_last_sync_micro ≡ true) where
  with_uuid :
      (state_now : SyncState) (plan : List FileAction) (uuid : Option ℕ)
      → foreign.parse_uuid request.sync_uuid ≡ uuid
      → state_of foreign service ≡ ok state_now
      → generate_sync_plan state_now request.status_list ≡ ok plan
      → Initiated foreign request service (
          or_status service invalid_argument uuid
            (λ u. open_session foreign request.sync_uuid u state_now plan service))
  unfolding open_session
  with_uuid state_now plan none e g h = refused _ (bad_uuid state_now plan g h e)
  with_uuid state_now plan (some uuid) e g h = opened uuid state_now plan _ valid g h e (record {
    found = get-insert_same uuid (session_of foreign state_now plan) service.sync_sessions;
    others = λ other apart.
        get-insert_other other uuid (session_of foreign state_now plan) service.sync_sessions apart;
    same_config = refl;
  })

  with_plan :
      (state_now : SyncState) (plan : Outcome (List FileAction))
      → state_of foreign service ≡ ok state_now
      → generate_sync_plan state_now request.status_list ≡ plan
      → Initiated foreign request service (
          or_internal service plan (λ p.
            or_status service invalid_argument
              (foreign.parse_uuid request.sync_uuid)
              (λ u. open_session foreign request.sync_uuid u state_now p service)))
  with_plan state_now (ok plan) g h = with_uuid state_now plan _ refl g h
  with_plan state_now (err e) g h = refused _ (no_plan state_now e g h)
  with_plan state_now panicked g h =
      refused _ (plan_panics state_now g (λ p e. cc (h, e)) (λ x e. cc (h, e)))
  with_plan state_now unfinished g h =
      refused _ (plan_panics state_now g (λ p e. cc (h, e)) (λ x e. cc (h, e)))

  with_state :
      (state_now : Outcome SyncState)
      → state_of foreign service ≡ state_now
      → Initiated foreign request service (
          or_internal service state_now (λ s.
            or_internal service (generate_sync_plan s request.status_list) (λ p.
              or_status service invalid_argument
                (foreign.parse_uuid request.sync_uuid)
                (λ u. open_session foreign request.sync_uuid u s p service))))
  with_state (ok s) g = with_plan s _ g refl
  with_state (err e) g = refused _ (no_state e g)
  with_state panicked g = refused _ (state_panics (λ s e. cc (g, e)) (λ x e. cc (g, e)))
  with_state unfinished g = refused _ (state_panics (λ s e. cc (g, e)) (λ x e. cc (g, e)))

pub initiate-Initiated :
    (foreign : Foreign) (request : ClientSyncState) (service : HarmonicService)
    → Initiated foreign request service (harmonize_client_initiate_sync foreign request service)
unfolding harmonize_client_initiate_sync
initiate-Initiated foreign request service =
    elim (Bool-cases (foreign.valid_micros request.timestamp_last_sync_micro)) [
      | inl valid ↦
          rw (valid, harmonize_client_initiate_sync)
            (with_state foreign request service valid _ refl)
      | inr invalid ↦
          rw (invalid, harmonize_client_initiate_sync) (refused _ (bad_timestamp invalid))
    ]

-- After a request for a plan that got one, a stream of requests under the same identifier is
-- served.
pub initiate-serve :
    (foreign : Foreign) (env : Environment) (request : ClientSyncState)
    (service after : HarmonicService) (plan : ServerSyncStateResponse)
    (requests : List (Option SyncRequest)) (tx : Sink)
    → harmonize_client_initiate_sync foreign request service ≡ (response plan, after)
    → harmonize_sync_request foreign env (some request.sync_uuid) requests tx after
      ≡ (response (handle_sync_request_stream env requests tx), after)
unfolding harmonize_sync_request
initiate-serve foreign env request service after plan requests tx e =
    served (harmonize_client_initiate_sync foreign request service)
      (initiate-Initiated foreign request service) e
  where
    served :
        (reply : Response ServerSyncStateResponse × HarmonicService)
        → Initiated foreign request service reply
        → reply ≡ (response plan, after)
        → harmonize_sync_request foreign env (some request.sync_uuid) requests tx after
          ≡ (response (handle_sync_request_stream env requests tx), after)
    served _ (opened uuid state_now p with_session valid walked planned parsed is) h =
        rw (parsed, harmonize_sync_request)
          (rw (sym (ap (λ x. get uuid x.1.sync_sessions) h) ∙ is.found) refl)
    served _ (refused reply why) h = absurd (Refusal-differs why plan (ap (λ x. x.0) h))
