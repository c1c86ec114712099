-- ===== src/Client/Pool/Drains.antt =====
-- The permits and the actions of `send_data_to_server`.
use mathlib.Core.List.{Perm, perm_middle}
use mathlib.Core.List.Perm
use harmonic.Prelude.{
  ℕ, ◌+◌, ◌≤◌, true, Option, none, some, length, length-append, List, [], ◌∷◌, ◌++◌, All,
  append_assoc, append-nil, ◌≡◌, refl, sym, ap, ◌∙◌, arith,
}
use harmonic.Proto.{FileAction}
use harmonic.Client.Pool.{
  Job, Pool, begin, acquire, job, spawn, given_back, finish, Step, acquires, spawns, finishes,
  leaves, Run, here, next,
}

abbrev pub held : Option FileAction → ℕ
held none = 0
held (some action) = 1

abbrev pub taken : Option FileAction → List FileAction
taken none = []
taken (some action) = action ∷ []

abbrev pub actions_of : List Job → List FileAction
actions_of [] = []
actions_of (j ∷ jobs) = j.action ∷ actions_of jobs

-- Where the actions are.
abbrev pub all : Pool → List FileAction
all s = ((s.pending ++ taken s.ready) ++ actions_of s.running) ++ s.ended

-- Each of the tasks owns a permit.
abbrev pub Own : List Job → Type 0
Own jobs = All (λ j. j.has_permit ≡ true) jobs

-- What holds in every state. The limit is the program's number.
pub record IsPool (actions : List FileAction) (s : Pool) : Type 0 where
  pub permits_kept : s.permits + held s.ready + length s.running ≡ 10
  pub owners : Own s.running
  pub each_once : Perm (all s) actions
  pub done : s.returned ≡ true → (s.pending ≡ []) × (s.ready ≡ none) × (s.running ≡ [])

actions_of-append :
    (before after : List Job) → actions_of (before ++ after) ≡ actions_of before ++ actions_of after
actions_of-append [] after = refl
actions_of-append (j ∷ before) after = ap (λ l. j.action ∷ l) (actions_of-append before after)

Own-append : (before after : List Job) → Own before → Own after → Own (before ++ after)
Own-append [] after h k = k
Own-append (j ∷ before) after h k = (h.0, Own-append before after h.1 k)

Own-parts :
    (before : List Job) (j : Job) (after : List Job)
    → Own (before ++ j ∷ after)
    → (j.has_permit ≡ true) × Own (before ++ after)
Own-parts [] j after h = h
Own-parts (i ∷ before) j after h =
    let (here_j, rest) = Own-parts before j after h.1 in (here_j, (h.0, rest))

given_back-one : (j : Job) → j.has_permit ≡ true → given_back j ≡ 1
given_back-one j e = rw e refl

-- The next action moves to the front of what is ready.
acquire_perm :
    (a : FileAction) (rest running ended : List FileAction)
    → Perm (((rest ++ a ∷ []) ++ running) ++ ended) ((((a ∷ rest) ++ []) ++ running) ++ ended)
acquire_perm a rest running ended =
    let e : ((rest ++ a ∷ []) ++ running) ++ ended ≡ rest ++ a ∷ (running ++ ended) =
      simp append_assoc in
    let f : a ∷ (rest ++ (running ++ ended)) ≡ (((a ∷ rest) ++ []) ++ running) ++ ended =
      simp append_assoc in
    rw e (rw (← f) (perm_middle rest (running ++ ended)))

spawn_perm :
    (a : FileAction) (pending running ended : List FileAction)
    → ((pending ++ []) ++ (running ++ a ∷ [])) ++ ended ≡ (pending ++ running) ++ a ∷ ended
spawn_perm a pending running ended = simp (append_assoc, append-nil)

spawned :
    (a : FileAction) (pending running ended : List FileAction)
    → Perm
        (((pending ++ []) ++ (running ++ a ∷ [])) ++ ended)
        (((pending ++ a ∷ []) ++ running) ++ ended)
spawned a pending running ended =
    let f : pending ++ a ∷ (running ++ ended) ≡ ((pending ++ a ∷ []) ++ running) ++ ended =
      simp append_assoc in
    let g : (pending ++ running) ++ ended ≡ pending ++ (running ++ ended) = simp append_assoc in
    rw (spawn_perm a pending running ended) (
      rw (← f) (
        Perm.trans (perm_middle (pending ++ running) ended)
          (rw g (Perm.symm (perm_middle pending (running ++ ended))))))

finish_perm :
    (a : FileAction) (pending before after ended : List FileAction)
    → Perm
        ((pending ++ (before ++ after)) ++ a ∷ ended)
        ((pending ++ (before ++ a ∷ after)) ++ ended)
finish_perm a pending before after ended =
    let there : (pending ++ (before ++ a ∷ after)) ++ ended
        ≡ (pending ++ before) ++ a ∷ (after ++ ended) =
      simp append_assoc in
    let apart : (pending ++ before) ++ (after ++ ended) ≡ (pending ++ (before ++ after)) ++ ended =
      simp append_assoc in
    rw there (
      Perm.trans (perm_middle (pending ++ (before ++ after)) ended)
        (Perm.symm (rw (← apart) (perm_middle (pending ++ before) (after ++ ended)))))

Step-IsPool :
    (actions : List FileAction) {s t : Pool} → Step s t → IsPool actions s → IsPool actions t
unfolding acquire spawn finish
Step-IsPool actions {s} (acquires a rest others waits free has) pool = record {
  permits_kept = omega (arith, pool.permits_kept, has, ap held free);
  owners = pool.owners;
  each_once =
      Perm.trans (acquire_perm a rest (actions_of s.running) s.ended)
        (let each = pool.each_once in let each' = rw waits at each in rw free at each');
  done = λ r. cc (waits, (pool.done r).0);
}
Step-IsPool actions {s} (spawns a is_ready) pool = record {
  permits_kept =
      omega (arith, pool.permits_kept, ap held is_ready, length-append s.running (job a ∷ []));
  owners = Own-append s.running (job a ∷ []) pool.owners (refl, tt);
  each_once = rw (actions_of-append s.running (job a ∷ [])) (
      Perm.trans (spawned a s.pending (actions_of s.running) s.ended)
        (let each = pool.each_once in rw is_ready at each));
  done = λ r. cc (is_ready, (pool.done r).1);
}
Step-IsPool actions {s} (finishes before after j runs) pool =
    let owners = let all_own = pool.owners in rw runs at all_own in
    let (owns, others) = Own-parts before j after owners in
    record {
      permits_kept = omega (
        arith,
        pool.permits_kept,
        given_back-one j owns,
        ap length runs,
        length-append before (j ∷ after),
        length-append before after,
      );
      owners = others;
      each_once = rw (actions_of-append before after) (
          Perm.trans
            (finish_perm j.action (s.pending ++ taken s.ready) (actions_of before)
              (actions_of after) s.ended)
            (let each = pool.each_once in
              let each' = rw runs at each in rw (actions_of-append before (j ∷ after)) at each'));
      done = λ r. absurd (running-ne before (sym runs ∙ (pool.done r).2));
    }
  where
    running-ne : (bs : List Job) → bs ++ j ∷ after ≡ [] → ⊥
    running-ne [] same = cc
    running-ne (b ∷ bs) same = cc
Step-IsPool actions {s} (leaves none_waits none_ready none_runs) pool = record {
  permits_kept = pool.permits_kept;
  owners = pool.owners;
  each_once = pool.each_once;
  done = λ r. (none_waits, none_ready, none_runs);
}

begin-IsPool : (actions : List FileAction) → IsPool actions (begin actions)
unfolding begin
begin-IsPool actions = record {
  permits_kept = refl;
  owners = tt;
  each_once =
      let e : ((actions ++ []) ++ []) ++ [] ≡ actions = simp append-nil in rw e (Perm.refl actions);
  done = λ r. cc;
}

Run-Kept :
    (actions : List FileAction) {k : ℕ} {s : Pool} → Run (begin actions) k s → IsPool actions s
Run-Kept actions here = begin-IsPool actions
Run-Kept actions (next run step) = Step-IsPool actions step (Run-Kept actions run)

-- A state of the pool, for those who wait on it.
pub record Shared (actions : List FileAction) (s : Pool) : Type 0 where
  pub limited : length s.running ≤ 10
  pub permits_kept : s.permits + held s.ready + length s.running ≡ 10
  pub each_once : Perm (all s) actions
  pub returns_all : s.returned ≡ true → (Perm s.ended actions) × (s.permits ≡ 10)

-- In every order of the steps of the loop and of the tasks, of which none need ever end: at most ten
-- tasks run at once, and each permit of the semaphore is free, or the loop's for the action that it
-- is about to spawn, or a running task's; each action is in one place, as often as it was given: not
-- yet taken, about to be spawned, running, or ended; and once the function has returned, all of them
-- have ended, and all ten permits are free.
pub Run-Shared :
    (actions : List FileAction) {k : ℕ} {s : Pool} → Run (begin actions) k s → Shared actions s
Run-Shared actions run =
    let pool = Run-Kept actions run in
    record {
      limited = omega (arith, pool.permits_kept);
      permits_kept = pool.permits_kept;
      each_once = pool.each_once;
      returns_all = λ r.
          let (no_pending, none_ready, no_running) = pool.done r in
          (
            (let each = pool.each_once in rw (no_pending, none_ready, no_running) at each),
            omega (arith, pool.permits_kept, ap held none_ready, ap length no_running),
          );
    }
