-- ===== src/Client/Queue/Places.antt =====
-- Where `main` of src/bin/client.rs stands in its loop, and where it stands at the lock.
use harmonic.Prelude.{
  ◌≤◌, Bool, true, Option, none, some, List, [], ◌∷◌, ◌++◌, ◌≡◌, ◌≢◌, refl, sym, ap, ◌∙◌, arith,
}
use mathlib.Core.Path.{subst}
use harmonic.Client.{check_queue}
use harmonic.Client.Queue.{
  Task, main, watcher, scheduler, Phase, asking, locking, syncing, ticking, stopped, Loop, begin,
  lock, release, after_check, check, dropped, tick, push, Event, Step, ask, look, synced, failed,
  wake, request, append, Run, here, next,
}
use harmonic.Client.Queue.Lock.{
  is_main, mains, holds_main, Free, total, Placed, IsLocked, lock-Locked, release-Released,
}

pub Placed-keep :
    (phase : Phase) (s t : Loop)
    → total t ≡ total s
    → mains t.waiters ≤ mains s.waiters
    → Placed phase s
    → Placed phase t
Placed-keep asking s t same less placed = omega arith
Placed-keep locking s t same less placed = omega arith
Placed-keep syncing s t same less placed = omega arith
Placed-keep ticking s t same less placed = omega arith
Placed-keep stopped s t same less placed = omega arith

pub not-main : (task : Task) → task ≢ main → is_main task ≡ 0
not-main main h = absurd (h refl)
not-main watcher h = refl
not-main scheduler h = refl

pub check_some :
    (s : Loop) → s.queue ≢ [] → check s ≡ release (record s { queue = []; phase = syncing })
unfolding check check_queue
check_some s = go s.queue
  where
    go :
        (queue : List Bool)
        → queue ≢ []
        → after_check (check_queue queue) s ≡ release (record s { queue = []; phase = syncing })
    go [] h = absurd (h refl)
    go (b ∷ queue) h = refl

pub check_none : (s : Loop) → s.queue ≡ [] → check s ≡ record s { queue = []; phase = ticking }
unfolding check check_queue
check_none s e = rw e refl

pub at_phase : (p : Phase) (s : Loop) → s.phase ≡ p → IsLocked s → Placed p s
at_phase p s e locked_s = subst (λ q. Placed q s) e locked_s.placed

pub Placed-at : (p : Phase) (t : Loop) → t.phase ≡ p → Placed p t → Placed t.phase t
Placed-at p t e placed = subst (λ q. Placed q t) (sym e) placed

pub ask-IsLocked :
    (s : Loop) → s.phase ≡ asking → IsLocked s → IsLocked (lock main (record s { phase = locking }))
ask-IsLocked s p is =
    let placed = at_phase asking s p is in
    let after = lock-Locked main (record s { phase = locking }) is.free in
    record {
      placed = rw (after.same_phase) (omega (arith, after.mains_after, placed));
      free = after.free;
    }

pub start-IsLocked :
    (s : Loop)
    → s.holder ≡ some main
    → s.phase ≡ locking
    → IsLocked s
    → IsLocked (release (record s { queue = []; phase = syncing }))
start-IsLocked s h p is =
    let placed = at_phase locking s p is in
    let after = release-Released (record s { queue = []; phase = syncing }) in
    record {
      placed = rw (after.same_phase) (omega (arith, after.mains_after, placed, ap holds_main h));
      free = after.free;
    }

pub tick-IsLocked : (s : Loop) → mains s.waiters ≡ 0 → Free s.holder s.waiters → IsLocked (tick s)
unfolding tick
tick-IsLocked s none_waits = go s.holder
  where
    next_round : Loop
    next_round = record s { phase = asking }

    go :
        (holder : Option Task)
        → Free holder s.waiters
        → IsLocked (dropped holder (record next_round { holder = holder }))
    go none free = record { placed = omega (arith, none_waits); free = free }
    go (some main) free =
        let after = release-Released (record next_round { holder = some main }) in
        record {
          placed = rw (after.same_phase) (omega (arith, after.mains_after, none_waits));
          free = after.free;
        }
    go (some watcher) free = record { placed = omega (arith, none_waits); free = tt }
    go (some scheduler) free = record { placed = omega (arith, none_waits); free = tt }

pub request-IsLocked : (task : Task) (s : Loop) → task ≢ main → IsLocked s → IsLocked (lock task s)
request-IsLocked task s other is =
    let after = lock-Locked task s is.free in
    let none_more = not-main task other in
    record {
      placed = Placed-at s.phase (lock task s) after.same_phase (
          Placed-keep s.phase s (lock task s) (omega (arith, after.mains_after, none_more))
            (omega (arith, after.more, none_more)) is.placed);
      free = after.free;
    }

pub push-IsLocked :
    (task : Task) (s : Loop) → task ≢ main → s.holder ≡ some task → IsLocked s → IsLocked (push s)
unfolding push
push-IsLocked task s other h is =
    let after = release-Released (record s { queue = s.queue ++ true ∷ [] }) in
    let none_held : holds_main s.holder ≡ 0 = ap holds_main h ∙ not-main task other in
    record {
      placed = Placed-at s.phase (push s) after.same_phase (
          Placed-keep s.phase s (push s) (omega (arith, after.mains_after, none_held)) after.fewer
            is.placed);
      free = after.free;
    }

pub look-IsLocked :
    (s : Loop) → s.holder ≡ some main → s.phase ≡ locking → IsLocked s → IsLocked (check s)
look-IsLocked s h p is = go s.queue refl
  where
    go : (queue : List Bool) → s.queue ≡ queue → IsLocked (check s)
    go [] e =
        let placed = at_phase locking s p is in
        rw (check_none s e)
          (record { placed = omega (arith, placed, ap holds_main h); free = is.free })
    go (b ∷ queue) e = rw (check_some s (λ empty. cc (e, empty))) (start-IsLocked s h p is)

pub Step-IsLocked : {s t : Loop} {event : Event} → Step s t event → IsLocked s → IsLocked t
Step-IsLocked {s} (ask p) is = ask-IsLocked s p is
Step-IsLocked {s} (look h p) is = look-IsLocked s h p is
Step-IsLocked {s} (synced p) is =
    let placed = at_phase syncing s p is in
    record { placed = omega (arith, placed); free = is.free }
Step-IsLocked {s} (failed p) is =
    let placed = at_phase syncing s p is in record { placed = placed; free = is.free }
Step-IsLocked {s} (wake p) is = tick-IsLocked s (at_phase ticking s p is) is.free
Step-IsLocked {s} (request task other free out) is = request-IsLocked task s other is
Step-IsLocked {s} (append task other h) is = push-IsLocked task s other h is

pub Run-IsLocked : {events : List Event} {s : Loop} → Run begin events s → IsLocked s
Run-IsLocked here = record { placed = refl; free = refl }
Run-IsLocked (next run step) = Step-IsLocked step (Run-IsLocked run)
