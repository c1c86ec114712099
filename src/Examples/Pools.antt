-- ===== src/Examples/Pools.antt =====
-- The tasks of a client's transfer at a concrete run: one action.
use harmonic.Prelude.{true, List, [], ◌∷◌, none, refl}
use harmonic.Proto.{FileAction, download, direction_i32}
use harmonic.Client.Pool.{
  Pool, begin, acquire, job, spawn, finish, Run, here, next, acquires, spawns, finishes, leaves,
}
use harmonic.Client.Pool.Drains.{Shared, Run-Shared}

abbrev action : FileAction
action = record {
  path = b'f' ∷ [];
  direction = direction_i32 download;
  timestamp_latest_modified = none;
}

abbrev actions : List FileAction
actions = action ∷ []

abbrev acquired : Pool
acquired = acquire action [] (begin actions)

abbrev spawned : Pool
spawned = spawn action acquired

abbrev finished : Pool
finished = finish [] (job action) [] spawned

abbrev final : Pool
final = record finished { returned = true }

run : Run (begin actions) 4 final
unfolding begin acquire spawn finish
run =
    next
      (next (next (next here (acquires action [] 9 refl refl refl)) (spawns action refl))
        (finishes [] [] (job action) refl))
      (leaves refl refl refl)

Run-Shared_example : Shared actions final
Run-Shared_example = Run-Shared actions run
