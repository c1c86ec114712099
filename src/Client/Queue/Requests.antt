-- ===== src/Client/Queue/Requests.antt =====
-- No request is lost, and no synchronisation starts without one.
use harmonic.Prelude.{ℕ, suc, ◌≤◌, length, List, [], ◌∷◌, ◌≡◌}
use harmonic.Client.Queue.{Loop, Event, pushed, started, requested, quiet}

-- The requests since the last synchronisation started.
unfoldable pub unserved : List Event → ℕ
unserved [] = 0
unserved (pushed ∷ events) = suc (unserved events)
unserved (started ∷ events) = 0
unserved (requested ∷ events) = unserved events
unserved (quiet ∷ events) = unserved events

-- Every synchronisation was asked for since the one before it.
abbrev pub Asked : List Event → Type 0
Asked [] = Unit
Asked (pushed ∷ events) = Asked events
Asked (started ∷ events) = (1 ≤ unserved events) × Asked events
Asked (requested ∷ events) = Asked events
Asked (quiet ∷ events) = Asked events

record IsCounted (s : Loop) (events : List Event) : Type 0 where
  counted : length s.queue ≡ unserved events
  asked_for : Asked events
