-- ===== src/Client/Queue/Served.antt =====
-- A request to the loop of src/bin/client.rs is served.
use harmonic.Prelude.{
  ℕ, suc, ◌+◌, ◌≤◌, ◌<◌, Bool, true, Option, none, some, List, [], ◌∷◌, ◌++◌, ◌≡◌, ◌≢◌, refl, sym,
  ap, ◌∙◌, arith,
}
use mathlib.Core.Path.{subst}
use harmonic.Client.{check_queue}
use harmonic.Client.Queue.{
  Task, main, watcher, scheduler, Phase, asking, locking, syncing, ticking, stopped, Loop, lock,
  check, tick, push, Event, pushed, started, requested, quiet, Step, shown, ask, look, synced, wake,
  append,
}
use harmonic.Client.Queue.Lock.{
  holds_main, Free, no_mains, held, Placed, IsLocked, occupancy, lock-Locked, release-Released,
}
use harmonic.Client.Queue.Places.{at_phase}

-- Places before the check.
abbrev pub rank : Phase → ℕ
rank locking = 0
rank asking = 2
rank ticking = 3
rank syncing = 4
rank stopped = 5

abbrev pub distance : Loop → ℕ
distance s = occupancy s + rank s.phase

-- A step towards the check: a synchronisation starts, or the distance falls.
data Advance (s : Loop) : Type 0 where
  starts : (t : Loop) → Step s t started → Advance s
  nears :
      (t : Loop) (event : Event)
      → Step s t event
      → event ≢ requested
      → distance t < distance s
      → t.queue ≢ []
      → t.phase ≢ stopped
      → Advance s

more-ne : (queue : List Bool) → queue ++ true ∷ [] ≢ []
more-ne [] e = cc
more-ne (b ∷ queue) e = cc

-- The holder pushes and leaves.
push-nears :
    (task : Task) (s : Loop) → task ≢ main → s.holder ≡ some task → s.phase ≢ stopped → Advance s
unfolding push
push-nears task s other h going =
    let after = release-Released (record s { queue = s.queue ++ true ∷ [] }) in
    nears (push s) pushed (append task other h) (λ e. cc)
      (omega (arith, after.waiters_left, ap held h, ap rank after.same_phase))
      (λ e. more-ne s.queue (sym after.same_queue ∙ e)) (λ e. going (sym after.same_phase ∙ e))

watcher-ne : watcher ≢ main
watcher-ne e = cc

scheduler-ne : scheduler ≢ main
scheduler-ne e = cc

-- What the end of a round does.
record Ticked (s t : Loop) : Type 0 where
  no_more : occupancy t ≤ occupancy s
  to_asking : t.phase ≡ asking
  same_queue : t.queue ≡ s.queue

tick-Ticked : (s : Loop) → Ticked s (tick s)
unfolding tick
tick-Ticked s = go s.holder
  where
    same :
        (holder : Option Task)
        → Ticked (record s { holder = holder }) (record s { holder = holder; phase = asking })
    same holder = record { no_more = omega arith; to_asking = refl; same_queue = refl }

    go :
        (holder : Option Task)
        → Ticked (record s { holder = holder }) (tick (record s { holder = holder }))
    go none = same none
    go (some main) =
        let after = release-Released (record s { holder = some main; phase = asking }) in
        record {
          no_more = omega (arith, after.waiters_left);
          to_asking = after.same_phase;
          same_queue = after.same_queue;
        }
    go (some watcher) = same (some watcher)
    go (some scheduler) = same (some scheduler)

ticks : (s : Loop) → s.phase ≡ ticking → s.queue ≢ [] → Free s.holder s.waiters → Advance s
ticks s p some_asked free =
    let after = tick-Ticked s in
    nears (tick s) quiet (wake p) (λ e. cc)
      (omega (arith, after.no_more, ap rank after.to_asking, ap rank p))
      (λ e. some_asked (sym after.same_queue ∙ e)) (λ e. cc (after.to_asking, e))

asks : (s : Loop) → s.phase ≡ asking → s.queue ≢ [] → Free s.holder s.waiters → Advance s
asks s p some_asked free =
    let after = lock-Locked main (record s { phase = locking }) free in
    nears (lock main (record s { phase = locking })) quiet (ask p) (λ e. cc)
      (omega (arith, after.one_more, ap rank after.same_phase, ap rank p))
      (λ e. some_asked (sym after.same_queue ∙ e)) (λ e. cc (after.same_phase, e))

syncs : (s : Loop) → s.phase ≡ syncing → s.queue ≢ [] → Advance s
syncs s p some_asked =
    nears (record s { phase = ticking }) quiet (synced p) (λ e. cc) (omega (arith, ap rank p))
      some_asked (λ e. cc)

-- The check of a queue with a request shows a start.
shows : (queue : List Bool) → queue ≢ [] → shown (check_queue queue).0 ≡ started
unfolding check_queue
shows [] h = absurd (h refl)
shows (b ∷ queue) h = refl

-- `main` waits for the lock or has it: it checks, or the holder gives way.
checks : (s : Loop) → s.phase ≡ locking → s.queue ≢ [] → IsLocked s → Advance s
checks s p some_asked is = go s.holder refl
  where
    placed : Placed locking s
    placed = at_phase locking s p is

    going : s.phase ≢ stopped
    going e = cc (p, e)

    go : (holder : Option Task) → s.holder ≡ holder → Advance s
    go none e =
        let free = subst (λ h. Free h s.waiters) e is.free in
        absurd (omega (arith, placed, ap holds_main e, no_mains s.waiters free))
    go (some main) e =
        starts (check s) (subst (Step s (check s)) (shows s.queue some_asked) (look e p))
    go (some watcher) e = push-nears watcher s watcher-ne e going
    go (some scheduler) e = push-nears scheduler s scheduler-ne e going

advance : (s : Loop) → IsLocked s → s.queue ≢ [] → s.phase ≢ stopped → Advance s
advance s is some_asked going = go s.phase refl
  where
    go : (phase : Phase) → s.phase ≡ phase → Advance s
    go asking e = asks s e some_asked is.free
    go locking e = checks s e some_asked is
    go syncing e = syncs s e some_asked
    go ticking e = ticks s e some_asked is.free
    go stopped e = absurd (going e)

-- A synchronisation starts within k steps, none of which is a request.
pub data Leads : Loop → ℕ → Type 0 where
  now : {k : ℕ} (s t : Loop) → Step s t started → Leads s (suc k)
  later :
      {k : ℕ} (s t : Loop) (event : Event)
      → Step s t event
      → event ≢ requested
      → Leads t k
      → Leads s (suc k)
