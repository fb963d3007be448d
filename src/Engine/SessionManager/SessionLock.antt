-- ===== src/Engine/SessionManager/SessionLock.antt =====
-- packages/engine/src/state/session-manager.ts: SessionLock, the lock of one session. A request is a
-- ticket, a number. An `await` is the end of a step.
pub mod Exclusion
use ghost_bazaar.Prelude.{
  ℕ, leb, ◌==◌, Bool, true, false, any, length, List, [], ◌∷◌, ◌++◌, Option, none, some,
  if◌then◌else◌,
}

pub record SessionLock : Type 0 where
  pub running : Bool
  pub waiters : List ℕ
  pub max_queue_size : ℕ

-- What a call of `run` comes to before its first `await`.
pub data Turn : Type 0 where
  runs waits busy : Turn

-- The start of `run`, with the `push` of `waitForTurn`.
unfoldable pub run : ℕ → SessionLock → Turn × SessionLock
run t l =
    if leb l.max_queue_size (length l.waiters)
    then (busy, l)
    else if l.running
    then (waits, record l { waiters = l.waiters ++ t ∷ [] })
    else (runs, record l { running = true })

-- `release`: the next waiter, if there is one, inherits the running state.
unfoldable pub release_to : List ℕ → SessionLock → Option ℕ × SessionLock
release_to [] l = (none, record l { running = false })
release_to (next ∷ rest) l = (some next, record l { waiters = rest })

unfoldable pub release : SessionLock → Option ℕ × SessionLock
unfolding release_to
release l = release_to l.waiters l

-- `indexOf` and `splice`
unfoldable pub splice : ℕ → List ℕ → List ℕ
splice t [] = []
splice t (w ∷ ws) = let rest = splice t ws in if w == t then ws else w ∷ rest

-- The timeout of a waiter that is not settled.
unfoldable pub time_out : ℕ → SessionLock → SessionLock
unfolding splice
time_out t l = record l { waiters = splice t l.waiters }

-- A lock with what happened at it: who is inside, who got in so far and who was admitted, in order.
pub record LockHistory : Type 0 where
  pub lock : SessionLock
  pub inside : List ℕ
  pub served : List ℕ
  pub admitted : List ℕ

pub data LockEvent : Type 0 where
  arrives finishes times_out : ℕ → LockEvent

unfoldable pub fresh_lock : ℕ → LockHistory
fresh_lock max = record {
  lock = record { running = false; waiters = []; max_queue_size = max };
  inside = [];
  served = [];
  admitted = [];
}

unfoldable pub arrive : ℕ → Turn × SessionLock → LockHistory → LockHistory
arrive t (runs, l) h = record {
  lock = l;
  inside = h.inside ++ t ∷ [];
  served = h.served ++ t ∷ [];
  admitted = h.admitted ++ t ∷ [];
}
arrive t (waits, l) h = record h { lock = l; admitted = h.admitted ++ t ∷ [] }
arrive t (busy, l) h = record h { lock = l }

unfoldable pub hand_over : Option ℕ × SessionLock → LockHistory → LockHistory
hand_over (none, l) h = record h { lock = l }
hand_over (some next, l) h = record h {
  lock = l;
  inside = h.inside ++ next ∷ [];
  served = h.served ++ next ∷ [];
}

-- A request arrives, one that is inside finishes, or one that waits times out; an event of a request
-- that is not there changes nothing.
unfoldable pub lock_event : LockEvent → LockHistory → LockHistory
unfolding run release arrive hand_over time_out splice
lock_event (arrives t) h = arrive t (run t h.lock) h
lock_event (finishes t) h =
    if any (λ i. i == t) h.inside
    then hand_over (release h.lock) (record h { inside = splice t h.inside })
    else h
lock_event (times_out t) h = record h { lock = time_out t h.lock }

unfoldable pub lock_events : List LockEvent → LockHistory → LockHistory
lock_events [] h = h
lock_events (e ∷ es) h = lock_events es (lock_event e h)
