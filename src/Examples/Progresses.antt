-- ===== src/Examples/Progresses.antt =====
-- Four requests at one lock.
use ghost_bazaar.Prelude.{◌≡◌, ◌≤◌, refl, any, length, List, [], ◌∷◌}
use ghost_bazaar.Engine.SessionManager.SessionLock.{
  LockEvent, arrives, finishes, times_out, fresh_lock, lock_events, lock_event, run, release,
  release_to, arrive, hand_over, time_out, splice,
}
use ghost_bazaar.Engine.SessionManager.SessionLock.Exclusion.{IsSubsequence, lock_is_exclusive}

abbrev lock_run : List LockEvent
lock_run =
    arrives 0 ∷ arrives 1 ∷ arrives 2 ∷ arrives 3 ∷ times_out 2 ∷ finishes 0 ∷ finishes 1 ∷ []

lock_is_exclusive_example :
    (length (lock_events lock_run (fresh_lock 10)).inside ≤ 1)
    × (length (lock_events lock_run (fresh_lock 10)).lock.waiters ≤ 10)
    × IsSubsequence
        (lock_events lock_run (fresh_lock 10)).served
        (lock_events lock_run (fresh_lock 10)).admitted
lock_is_exclusive_example = lock_is_exclusive 10 lock_run

lock_run_serves_in_order : (lock_events lock_run (fresh_lock 10)).served ≡ 0 ∷ 1 ∷ 3 ∷ []
unfolding lock_events lock_event run release release_to arrive hand_over time_out splice fresh_lock
    any
lock_run_serves_in_order = refl
