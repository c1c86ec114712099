-- ===== src/Client/Queue.antt =====
-- The queue of src/bin/client.rs and its lock, which the loop of `main`, the watcher and the
-- scheduler share. tokio's lock is fair: who waits for it gets it in the order of asking.
pub mod Lock
pub mod Places
pub mod Requests
pub mod Served
use harmonic.Prelude.{Bool, true, false, Option, none, some, List, [], ◌∷◌, ◌++◌, ◌≡◌, ◌≢◌, ◌⊎◌}
use harmonic.Client.{check_queue}

pub data Task : Type 0 where
  main watcher scheduler : Task

-- Where `main` is in its loop: about to ask for the lock; waiting for it, or at `pop_front`; in the
-- synchronisation; at the tick, with the lock where the queue was empty; or gone, by an error of
-- the task that it waited for.
pub data Phase : Type 0 where
  asking locking syncing ticking stopped : Phase

pub record Loop : Type 0 where
  pub queue : List Bool
  pub holder : Option Task
  pub waiters : List Task
  pub phase : Phase

abbrev pub begin : Loop
begin = record { queue = []; holder = none; waiters = []; phase = asking }

-- `QUEUE.lock()` of a task.
abbrev pub locked : Task → Option Task → Loop → Loop
locked task none s = record s { holder = some task }
locked task (some other) s = record s { waiters = s.waiters ++ task ∷ [] }

unfoldable pub lock : Task → Loop → Loop
lock task s = locked task s.holder s

-- The end of a guard: the lock goes to the first that waits.
abbrev pub handed : List Task → Loop → Loop
handed [] s = record s { holder = none }
handed (task ∷ tasks) s = record s { holder = some task; waiters = tasks }

unfoldable pub release : Loop → Loop
release s = handed s.waiters s

-- The `if let` on `pop_front`: the guard is dropped before a synchronisation, and else kept.
abbrev pub after_check : Bool × List Bool → Loop → Loop
after_check (true, queue) s = release (record s { queue = queue; phase = syncing })
after_check (false, queue) s = record s { queue = queue; phase = ticking }

unfoldable pub check : Loop → Loop
check s = after_check (check_queue s.queue) s

-- The end of the loop's body: a guard that was kept is dropped.
abbrev pub dropped : Option Task → Loop → Loop
dropped none s = s
dropped (some main) s = release s
dropped (some watcher) s = s
dropped (some scheduler) s = s

unfoldable pub tick : Loop → Loop
tick s = let next = record s { phase = asking } in dropped s.holder next

-- `QUEUE.lock().await.push_back(true)` of the watcher or the scheduler, once it has the lock.
unfoldable pub push : Loop → Loop
push s = release (record s { queue = s.queue ++ true ∷ [] })

abbrev pub Mem : Task → List Task → Type 0
Mem task [] = ⊥
Mem task (t ∷ tasks) = (task ≡ t) ⊎ Mem task tasks

-- What a step shows to the others.
pub data Event : Type 0 where
  pushed started requested quiet : Event

-- What the check of the queue shows: whether it starts a synchronisation.
abbrev pub shown : Bool → Event
shown true = started
shown false = quiet

pub data Step (s : Loop) : Loop → Event → Type 0 where
  ask : s.phase ≡ asking → Step s (lock main (record s { phase = locking })) quiet
  look : s.holder ≡ some main → s.phase ≡ locking → Step s (check s) (shown (check_queue s.queue).0)
  synced : s.phase ≡ syncing → Step s (record s { phase = ticking }) quiet
  failed : s.phase ≡ syncing → Step s (record s { phase = stopped }) quiet
  wake : s.phase ≡ ticking → Step s (tick s) quiet
  request :
      (task : Task)
      → task ≢ main
      → s.holder ≢ some task
      → ¬ Mem task s.waiters
      → Step s (lock task s) requested
  append : (task : Task) → task ≢ main → s.holder ≡ some task → Step s (push s) pushed

-- The states after some events, the last first.
pub data Run (s : Loop) : List Event → Loop → Type 0 where
  here : Run s [] s
  next :
      {events : List Event} {t u : Loop} {event : Event}
      → Run s events t
      → Step t u event
      → Run s (event ∷ events) u
