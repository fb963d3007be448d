-- ===== src/Engine/DeadlineEnforcer.antt =====
-- packages/engine/src/deadline-enforcer.ts: what one scan does to one session.
pub mod Progress
pub mod Scan
use ghost_bazaar.Prelude.{
  ℕ, ◌-◌, ltb, leb, min, max, String, Bool, true, false, not, ◌||◌, ◌&&◌, Option, none, some,
  Result, ok, ◌>>=◌, if◌then◌else◌,
}
use ghost_bazaar.Prelude.Json.{str, field, end}
use ghost_bazaar.Core.External.{Externals}
use ghost_bazaar.Engine.Types.{
  SessionState, committed, expired, cancelled, commit_pending, is_state, NegotiationEvent,
  negotiation_expired, cosign_timeout,
}
use ghost_bazaar.Engine.Session.{DerivedSession}
use ghost_bazaar.Engine.SessionManager.{
  SessionManager, ManagerError, get_session, append_event, enter_lock, leave_lock,
}
use ghost_bazaar.Engine.Http.{Moment, has_passed}
use ghost_bazaar.Engine.ControlEnvelope.{nonempty}

abbrev pub clamp : ℕ → ℕ → ℕ → ℕ
clamp value low high = max low (min high value)

abbrev pub cosign_timeout_ms : Option ℕ → ℕ
cosign_timeout_ms none = clamp 60000 15000 120000
cosign_timeout_ms (some ms) = clamp ms 15000 120000

-- `TERMINAL_STATES` and `EXPIRABLE_STATES`
unfoldable pub is_terminal_state : SessionState → Bool
is_terminal_state committed = true
is_terminal_state expired = true
is_terminal_state cancelled = true
is_terminal_state _ = false

unfoldable pub is_expirable_state : SessionState → Bool
is_expirable_state committed = false
is_expirable_state expired = false
is_expirable_state cancelled = false
is_expirable_state _ = true

abbrev pub expired_event : String → Moment → NegotiationEvent
expired_event rfq_id t = record {
  event_id = t.uuid;
  rfq_id = rfq_id;
  type = negotiation_expired;
  timestamp = t.timestamp;
  actor = "engine/deadline-enforcer";
  payload = end;
}

abbrev pub timeout_event : String → String → Moment → NegotiationEvent
timeout_event rfq_id seller t = record {
  event_id = t.uuid;
  rfq_id = rfq_id;
  type = cosign_timeout;
  timestamp = t.timestamp;
  actor = "engine/deadline-enforcer";
  payload = field "seller" (str seller) end;
}

-- What a scan does with a session before it takes the lock.
pub data ScanAction : Type 0 where
  clean_up try_expire try_cosign_timeout leave : ScanAction

module _ (x : Externals) where
  -- Whether `commitPendingAt` lies at least `timeout` back. A time that does not parse is `NaN`, and
  -- `now - NaN >= timeout` is false.
  unfoldable pub is_overdue : Option String → ℕ → ℕ → Bool
  is_overdue none timeout now = false
  is_overdue (some at) timeout now = elim (x.parse_date at) [
    | none ↦ false
    | some t ↦ leb t now && leb timeout (now - t)
  ]

  -- The body of the loop in `scan`.
  unfoldable pub scan_session : ℕ → ℕ → DerivedSession → ScanAction
  unfolding is_terminal_state is_expirable_state is_overdue
  scan_session timeout now s =
      if is_terminal_state s.state
      then clean_up
      else if is_expirable_state s.state && has_passed x s.rfq.deadline now
      then try_expire
      else if is_state s.state commit_pending && is_overdue s.commit_pending_at timeout now
      then try_cosign_timeout
      else leave

  -- The callback of `tryExpire`; `none` is its early return. `now < NaN` is false, so that a
  -- deadline that does not parse does not stop it.
  unfoldable pub decide_expire : String → Moment → DerivedSession → Option NegotiationEvent
  decide_expire rfq_id t s =
      if is_terminal_state s.state
      then none
      else if not (is_expirable_state s.state)
      then none
      else if elim (x.parse_date s.rfq.deadline) [ none ↦ false | some d ↦ ltb t.now d ]
      then none
      else some (expired_event rfq_id t)

  -- `now - t < timeout`
  unfoldable pub is_recent : String → ℕ → ℕ → Bool
  is_recent at timeout now = elim (x.parse_date at) [
    | none ↦ false
    | some t ↦ ltb now t || ltb (now - t) timeout
  ]

  -- The callback of `tryCosignTimeout`.
  unfoldable pub decide_timeout : ℕ → String → Moment → DerivedSession → Option NegotiationEvent
  decide_timeout timeout rfq_id t s =
      if not (is_state s.state commit_pending) then none else elim (nonempty s.commit_pending_at) [
        | none ↦ none
        | some at ↦ if is_recent at timeout t.now then none else elim (nonempty s.selected_seller) [
          | none ↦ none
          | some seller ↦ some (timeout_event rfq_id seller t)
        ]
      ]

-- The event that a callback appends to the session, if there is one.
abbrev pub event_for :
    (DerivedSession → Option NegotiationEvent) → Option DerivedSession → Option NegotiationEvent
event_for decide none = none
event_for decide (some s) = decide s

unfoldable pub append_if :
    String → Option NegotiationEvent → ℕ → SessionManager → Result ManagerError SessionManager
append_if k none now m = ok (leave_lock k m)
append_if k (some e) now m = do (s, m₁) ← append_event k e now m; ok (leave_lock k m₁)

-- `withLock` around a callback that may return early, when the lock is granted; a refused lock
-- (`SessionBusyError`) leaves everything as it is.
unfoldable pub locked_maybe :
    String
    → Moment
    → (DerivedSession → Option NegotiationEvent)
    → SessionManager
    → Result ManagerError SessionManager
unfolding append_if
locked_maybe k t decide m = do
  (session, m₁) ← get_session k t.now (enter_lock k m)
  append_if k (event_for decide session) t.now m₁
