-- ===== src/Examples/Scans.antt =====
-- A scan after the deadline of the one session.
use ghost_bazaar.Prelude.{ℕ, String, ◌===◌, arith, refl, any, Bool, false, [], Option, none}
use ghost_bazaar.Prelude.Dict.{lookup}
use ghost_bazaar.Engine.EventStore.{get_all_events}
use ghost_bazaar.Engine.Routes.Steps.System.{Run-IsReached}
use ghost_bazaar.Engine.ConnectionTracker.{empty_tracker}
use ghost_bazaar.Engine.Http.{Moment}
use ghost_bazaar.Engine.DeadlineEnforcer.{is_expirable_state}
use ghost_bazaar.Engine.DeadlineEnforcer.Scan.{Scanner, scan}
use ghost_bazaar.Engine.DeadlineEnforcer.Scan.Expires.{IsDue, IsExpired}
use ghost_bazaar.Engine.DeadlineEnforcer.Scan.Complete.{scan_expires_overdue}
use ghost_bazaar.Examples.World.{world, rfq_id, session_offered}
use ghost_bazaar.Examples.Stores.{log_derives}
use ghost_bazaar.Examples.Managers.{manager_offered, offered_Run}

abbrev scanner : Scanner
scanner = record {
  manager = manager_offered;
  tracker = empty_tracker;
  tombstones = record { tombstones = []; next_expiry = none };
  cleaned_up_sessions = [];
}

-- The ids of the events are those of the sessions.
abbrev at : String → Moment
at k = record { now = 1100000; uuid = k; timestamp = "2026-01-01T00:18:20.000Z" }

abbrev no_locks : String → Option ℕ
no_locks k = none

abbrev never_busy : String → Bool
never_busy k = false

is_due : IsDue world rfq_id (at rfq_id) manager_offered
unfolding get_all_events lookup is_expirable_state ◌===◌
is_due = record {
  session = session_offered;
  deadline = 1000000;
  derived = log_derives;
  expirable = refl;
  parsed = refl;
  late = omega arith;
}

scan_expires_overdue_example :
    IsExpired world rfq_id (scan world 60000 never_busy no_locks at 1100001 scanner).manager
unfolding any ◌===◌
scan_expires_overdue_example =
    scan_expires_overdue world 60000 never_busy no_locks at rfq_id 1100001 scanner (λ i j e. e) refl
      (Run-IsReached world manager_offered offered_Run).sound refl refl is_due
