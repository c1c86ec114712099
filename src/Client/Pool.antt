-- ===== src/Client/Pool.antt =====
-- `send_data_to_server` of src/bin/client.rs: a task for each action, each with a permit of a
-- semaphore. The tasks run in any order beside the loop that spawns them. A task need not end.
pub mod Drains
use harmonic.Prelude.{
  ℕ, suc, ◌+◌, ◌-◌, Bool, true, false, if◌then◌else◌, Option, none, some, List, [], ◌∷◌, ◌++◌, ◌≡◌,
}
use harmonic.Proto.{FileAction}

-- `Semaphore::new(10)`
abbrev pub max_concurrency : ℕ
max_concurrency = 10

-- A task, and whether it owns a permit.
pub record Job : Type 0 where
  pub action : FileAction
  pub has_permit : Bool

-- The actions that the `for` has not taken; the permits that are free; the action that the loop has
-- a permit for and has not spawned; the tasks in the `JoinSet` that run; the actions of those that
-- have ended, the last first; and whether the function has returned.
pub record Pool : Type 0 where
  pub pending : List FileAction
  pub permits : ℕ
  pub ready : Option FileAction
  pub running : List Job
  pub ended : List FileAction
  pub returned : Bool

unfoldable pub begin : List FileAction → Pool
begin file_actions = record {
  pending = file_actions;
  permits = max_concurrency;
  ready = none;
  running = [];
  ended = [];
  returned = false;
}

-- `acquire_owned` for the next action, once there is a permit.
unfoldable pub acquire : FileAction → List FileAction → Pool → Pool
acquire action rest s = record s { pending = rest; permits = s.permits - 1; ready = some action }

-- The permit moves into the task, which keeps it as `_permit`.
abbrev pub job : FileAction → Job
job action = record { action = action; has_permit = true }

unfoldable pub spawn : FileAction → Pool → Pool
spawn action s = record s { ready = none; running = s.running ++ job action ∷ [] }

-- A permit that is dropped is free again.
abbrev pub given_back : Job → ℕ
given_back j = if j.has_permit then 1 else 0

-- The end of a task, by itself or by a panic, which is logged either way.
unfoldable pub finish : List Job → Job → List Job → Pool → Pool
finish before j after s = record s {
  permits = s.permits + given_back j;
  running = before ++ after;
  ended = j.action ∷ s.ended;
}

-- `leaves`: the `for` is over and `join_next` finds no task.
pub data Step (s : Pool) : Pool → Type 0 where
  acquires :
      (action : FileAction) (rest : List FileAction) (others : ℕ)
      → s.pending ≡ action ∷ rest
      → s.ready ≡ none
      → s.permits ≡ suc others
      → Step s (acquire action rest s)
  spawns : (action : FileAction) → s.ready ≡ some action → Step s (spawn action s)
  finishes :
      (before after : List Job) (j : Job)
      → s.running ≡ before ++ j ∷ after
      → Step s (finish before j after s)
  leaves : s.pending ≡ [] → s.ready ≡ none → s.running ≡ [] → Step s (record s { returned = true })

-- The states after a number of steps.
pub data Run (s : Pool) : ℕ → Pool → Type 0 where
  here : Run s 0 s
  next : {k : ℕ} {t u : Pool} → Run s k t → Step t u → Run s (suc k) u
