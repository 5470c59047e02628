-- ===== src/Gateway/Mutex/Tests.antt =====
-- Two tasks of one key, the first of them running, and the theorems of the mutex at them.
use aegis_phase.Prelude.{◌⊎◌, ◌≡◌, ◌+◌, refl, true, some, codes, text_eq, arith}
use aegis_phase.Gateway.Mutex.{
  KeyedMutex, created, run, running, over, with_status, runs, starts, settles, Reach, start, later,
}
use aegis_phase.Gateway.Mutex.Excludes.{TakeTurns, Reach-TakeTurns}
use aegis_phase.Gateway.Mutex.Serves.{idle, works, remaining, CanWork, AllDone, Served-AllDone}

abbrev queued : KeyedMutex
queued = run (codes "GA") (run (codes "GA") created)

abbrev busy : KeyedMutex
busy = with_status 0 running queued

busy-Reach : Reach busy
busy-Reach =
    later
      (later (later start (runs created (codes "GA")))
        (runs (run (codes "GA") created) (codes "GA")))
      (starts queued 0 (omega arith) refl refl)

-- The second task waits for the first, whose end makes it ready.
waits_for_first : (queued.task 1).previous ≡ some 0
unfolding text_eq
waits_for_first = refl

Reach-TakeTurns_example : TakeTurns busy 0 1
Reach-TakeTurns_example = Reach-TakeTurns busy-Reach 0 1 (omega arith) (omega arith) refl

Served-AllDone_example :
    (1 + remaining (with_status 0 (over true) busy) ≡ remaining busy)
    × (CanWork (with_status 0 (over true) busy) ⊎ AllDone (with_status 0 (over true) busy))
Served-AllDone_example =
    Served-AllDone busy-Reach (works idle (settles busy 0 true (omega arith) refl) tt)
