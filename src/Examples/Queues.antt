-- ===== src/Examples/Queues.antt =====
-- The queue of a client at a concrete run: the watcher asks, pushes, and `main` asks and checks.
use harmonic.Client.Queue.{main, watcher, Loop, begin, lock, push, locking}

abbrev asked : Loop
asked = lock watcher begin

abbrev waits : Loop
waits = push asked

-- `main` asks for the lock, gets it, and finds the request.
abbrev at_lock : Loop
at_lock = lock main (record waits { phase = locking })
