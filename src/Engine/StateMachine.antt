-- ===== src/Engine/StateMachine.antt =====
-- packages/engine/src/state/state-machine.ts: which event is accepted in which state.
pub mod Targets
use ghost_bazaar.Prelude.{Option, none, some}
use ghost_bazaar.Engine.Types.{
  SessionState, open_state, negotiating, commit_pending, committed, expired, cancelled, EventType,
  offer_submitted, counter_sent, winner_selected, commit_pending_event, quote_signed,
  quote_committed, cosign_declined, cosign_timeout, negotiation_expired, negotiation_cancelled,
  settlement_confirmed,
}

-- `TRANSITION_RULES[state][type]`; `none` is `undefined`.
unfoldable pub transition_rules : SessionState → EventType → Option SessionState
transition_rules open_state offer_submitted = some negotiating
transition_rules open_state negotiation_expired = some expired
transition_rules open_state negotiation_cancelled = some cancelled
transition_rules negotiating offer_submitted = some negotiating
transition_rules negotiating counter_sent = some negotiating
transition_rules negotiating winner_selected = some commit_pending
transition_rules negotiating negotiation_expired = some expired
transition_rules negotiating negotiation_cancelled = some cancelled
transition_rules commit_pending commit_pending_event = some commit_pending
transition_rules commit_pending quote_signed = some commit_pending
transition_rules commit_pending quote_committed = some committed
transition_rules commit_pending cosign_declined = some negotiating
transition_rules commit_pending cosign_timeout = some negotiating
transition_rules commit_pending negotiation_expired = some expired
transition_rules committed settlement_confirmed = some committed
transition_rules _ _ = none

-- `{ valid: true, nextState }` is `some nextState`, `{ valid: false }` is `none`.
unfoldable pub is_valid_transition : SessionState → EventType → Option SessionState
unfolding transition_rules
is_valid_transition current type = transition_rules current type
