-- ===== src/Engine/DeadlineEnforcer/Scan.antt =====
-- packages/engine/src/deadline-enforcer.ts: a whole scan, which no call of `stop` interrupts and during
-- which no request is served. The sessions are visited one after another, each at its own moment. A
-- session is busy if `withLock` refuses its lock, since too many wait for it or the wait takes too long.
pub mod Effects
pub mod Expires
pub mod Timeouts
pub mod Complete
use ghost_bazaar.Prelude.{
  ℕ, ◌-◌, ◌/◌, zero, suc, String, ◌===◌, ltb, Bool, true, false, not, List, [], ◌∷◌, Option, none,
  some, any, length, Result, ok, err, if◌then◌else◌,
}
use ghost_bazaar.Prelude.Dict.{remove}
use ghost_bazaar.Core.External.{Externals}
use ghost_bazaar.Engine.Session.{DerivedSession}
use ghost_bazaar.Engine.SessionManager.{
  SessionManager, ManagerError, get_session, is_locked, get_active_session_ids, evict_stale_cache,
}
use ghost_bazaar.Engine.Http.{Moment}
use ghost_bazaar.Engine.ControlEnvelope.{Tombstones, sweep}
use ghost_bazaar.Engine.ConnectionTracker.{ConnectionTracker, close_all}
use ghost_bazaar.Engine.SqliteEventStore.{add_id}
use ghost_bazaar.Engine.DeadlineEnforcer.{
  ScanAction, clean_up, try_expire, try_cosign_timeout, leave, scan_session, decide_expire,
  decide_timeout, locked_maybe,
}

-- The enforcer with what it works on.
pub record Scanner : Type 0 where
  pub manager : SessionManager
  pub tracker : ConnectionTracker
  pub tombstones : Tombstones
  pub cleaned_up_sessions : List String

-- `removeLock`, where `waiting` is the number of requests that wait for the session's lock, if it has
-- one.
unfoldable pub remove_lock : String → Option ℕ → SessionManager → Bool × SessionManager
remove_lock k none m = (not (is_locked k m), m)
remove_lock k (some waiting) m =
    if is_locked k m
    then (false, m)
    else if ltb 0 waiting
    then (false, m)
    else (true, record m { session_cache = remove k m.session_cache })

abbrev pub mark : Bool → String → List String → List String
mark true k ids = add_id k ids
mark false k ids = ids

unfoldable pub clean_session : String → Option ℕ → Scanner → Scanner
unfolding remove_lock close_all add_id
clean_session k waiting s =
    let (removed, m) = remove_lock k waiting s.manager in
    record s {
      manager = m;
      tracker = close_all k s.tracker;
      cleaned_up_sessions = mark removed k s.cleaned_up_sessions;
    }

-- An error is caught: the session is left for the next scan.
abbrev pub or_as_before : SessionManager → Result ManagerError SessionManager → SessionManager
or_as_before m (ok m') = m'
or_as_before m (err e) = m

-- The first n entries dropped.
abbrev pub drop_first : ℕ → List String → List String
drop_first zero ids = ids
drop_first (suc n) [] = []
drop_first (suc n) (id ∷ ids) = drop_first n ids

abbrev pub bounded : List String → List String
bounded ids = if ltb 10000 (length ids) then drop_first (length ids / 2) ids else ids

module _ (x : Externals) (timeout : ℕ) (busy : String → Bool) (waiting : String → Option ℕ)
    (at : String → Moment) where
  unfoldable pub act_on : ScanAction → String → Scanner → Scanner
  unfolding clean_session locked_maybe
  act_on clean_up k s = clean_session k (waiting k) s
  act_on try_expire k s =
      let m = or_as_before s.manager (locked_maybe k (at k) (decide_expire x k (at k)) s.manager) in
      if busy k then s else record s { manager = m }
  act_on try_cosign_timeout k s =
      let m =
        or_as_before s.manager
          (locked_maybe k (at k) (decide_timeout x timeout k (at k)) s.manager) in
      if busy k then s else record s { manager = m }
  act_on leave k s = s

  -- What the body of the loop does with the session that `getSession` returns.
  unfoldable pub visit_read :
      String → Scanner → Result ManagerError (Option DerivedSession × SessionManager) → Scanner
  unfolding act_on scan_session
  visit_read k s (err e) = s
  visit_read k s (ok (none, m)) = record s { manager = m }
  visit_read k s (ok (some session, m)) =
      act_on (scan_session x timeout (at k).now session) k (record s { manager = m })

  unfoldable pub visit : String → Scanner → Scanner
  unfolding visit_read
  visit k s =
      if any (λ j. j === k) s.cleaned_up_sessions
      then s
      else visit_read k s (get_session k (at k).now s.manager)

  unfoldable pub visit_all : List String → Scanner → Scanner
  unfolding visit
  visit_all [] s = s
  visit_all (k ∷ ks) s = visit_all ks (visit k s)

  -- What follows the loop, at the moment `after`.
  unfoldable pub finish_scan : ℕ → Scanner → Scanner
  finish_scan after s = record s {
    tombstones = sweep after s.tombstones;
    manager = evict_stale_cache after 300000 s.manager;
    cleaned_up_sessions = bounded s.cleaned_up_sessions;
  }

  unfoldable pub scan : ℕ → Scanner → Scanner
  unfolding visit_all finish_scan
  scan after s = finish_scan after (visit_all (get_active_session_ids s.manager) s)
