-- ===== src/Engine/Types.antt =====
-- packages/engine/src/types.ts: session states, event types and the entries of the event log.
use ghost_bazaar.Prelude.{ℕ, String, Bool, ◌==◌}
use ghost_bazaar.Prelude.Json.{Payload}

pub data SessionState : Type 0 where
  open_state negotiating commit_pending committed expired cancelled : SessionState

pub data EventType : Type 0 where
  rfq_created offer_submitted counter_sent winner_selected commit_pending_event : EventType
  quote_signed quote_committed cosign_declined cosign_timeout : EventType
  negotiation_expired negotiation_cancelled settlement_confirmed : EventType

-- `timestamp` is the ISO 8601 text that the program writes.
pub record NegotiationEvent : Type 0 where
  pub event_id : String
  pub rfq_id : String
  pub type : EventType
  pub timestamp : String
  pub actor : String
  pub payload : Payload

-- The place of a state in the `as const` object; equal codes are equal states.
abbrev pub state_code : SessionState → ℕ
state_code open_state = 0
state_code negotiating = 1
state_code commit_pending = 2
state_code committed = 3
state_code expired = 4
state_code cancelled = 5

-- `===` on states.
abbrev pub is_state : SessionState → SessionState → Bool
is_state s t = state_code s == state_code t
