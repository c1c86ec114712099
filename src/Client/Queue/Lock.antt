-- ===== src/Client/Queue/Lock.antt =====
-- What asking for the lock of src/bin/client.rs and giving it back do to its holder and its queue.
use harmonic.Prelude.{
  ℕ, suc, ◌+◌, ◌≤◌, Option, none, some, length, length-append, List, [], ◌∷◌, ◌++◌, ◌≡◌, refl,
  arith,
}
use harmonic.Client.Queue.{
  Task, main, watcher, scheduler, Phase, asking, locking, syncing, ticking, stopped, Loop, lock,
  release,
}

abbrev pub is_main : Task → ℕ
is_main main = 1
is_main watcher = 0
is_main scheduler = 0

abbrev pub mains : List Task → ℕ
mains [] = 0
mains (task ∷ tasks) = is_main task + mains tasks

abbrev pub holds_main : Option Task → ℕ
holds_main none = 0
holds_main (some task) = is_main task

-- Nobody waits for a free lock.
abbrev pub Free : Option Task → List Task → Type 0
Free none waiters = length waiters ≡ 0
Free (some task) waiters = Unit

pub mains-append :
    (tasks : List Task) (task : Task) → mains (tasks ++ task ∷ []) ≡ mains tasks + is_main task
mains-append [] task = omega arith
mains-append (t ∷ tasks) task = omega (arith, mains-append tasks task)

pub no_mains : (tasks : List Task) → length tasks ≡ 0 → mains tasks ≡ 0
no_mains [] h = refl
no_mains (t ∷ tasks) h = absurd (omega arith)

abbrev pub held : Option Task → ℕ
held none = 0
held (some task) = 1

abbrev pub total : Loop → ℕ
total s = holds_main s.holder + mains s.waiters

-- How often `main` holds the lock or waits for it, by its place in the loop.
abbrev pub Placed : Phase → Loop → Type 0
Placed asking s = total s ≡ 0
Placed locking s = total s ≡ 1
Placed syncing s = total s ≡ 0
Placed ticking s = mains s.waiters ≡ 0
Placed stopped s = total s ≡ 0

pub record IsLocked (s : Loop) : Type 0 where
  pub placed : Placed s.phase s
  pub free : Free s.holder s.waiters

-- Who holds the lock or waits for it.
abbrev pub occupancy : Loop → ℕ
occupancy s = held s.holder + length s.waiters

-- What `lock` does to the lock.
pub record Locked (task : Task) (s t : Loop) : Type 0 where
  pub mains_after : total t ≡ total s + is_main task
  pub more : mains t.waiters ≤ mains s.waiters + is_main task
  pub free : Free t.holder t.waiters
  pub one_more : occupancy t ≡ suc (occupancy s)
  pub same_phase : t.phase ≡ s.phase
  pub same_queue : t.queue ≡ s.queue

pub lock-Locked : (task : Task) (s : Loop) → Free s.holder s.waiters → Locked task s (lock task s)
unfolding lock
lock-Locked task s = go s.holder s.waiters
  where
    go :
        (holder : Option Task) (waiters : List Task)
        → Free holder waiters
        → Locked task
            (record s { holder = holder; waiters = waiters })
            (lock task (record s { holder = holder; waiters = waiters }))
    go none waiters h = record {
      mains_after = omega (arith, no_mains waiters h);
      more = omega arith;
      free = tt;
      one_more = omega arith;
      same_phase = refl;
      same_queue = refl;
    }
    go (some other) waiters h = record {
      mains_after = omega (arith, mains-append waiters task);
      more = omega (arith, mains-append waiters task);
      free = tt;
      one_more = omega (arith, length-append waiters (task ∷ []));
      same_phase = refl;
      same_queue = refl;
    }

-- What `release` does to the lock.
pub record Released (s t : Loop) : Type 0 where
  pub mains_after : total t ≡ mains s.waiters
  pub free : Free t.holder t.waiters
  pub waiters_left : occupancy t ≡ length s.waiters
  pub fewer : mains t.waiters ≤ mains s.waiters
  pub same_phase : t.phase ≡ s.phase
  pub same_queue : t.queue ≡ s.queue

pub release-Released : (s : Loop) → Released s (release s)
unfolding release
release-Released s = go s.waiters
  where
    go :
        (waiters : List Task)
        → Released (record s { waiters = waiters }) (release (record s { waiters = waiters }))
    go [] = record {
      mains_after = refl;
      free = refl;
      waiters_left = refl;
      fewer = omega arith;
      same_phase = refl;
      same_queue = refl;
    }
    go (t ∷ tasks) = record {
      mains_after = refl;
      free = tt;
      waiters_left = omega arith;
      fewer = omega arith;
      same_phase = refl;
      same_queue = refl;
    }
