-- ===== src/Engine/Visibility.antt =====
-- packages/engine/src/state/visibility.ts: which events a participant may see.
use ghost_bazaar.Prelude.{String, ◌===◌, Bool, true, false, if◌then◌else◌}
use ghost_bazaar.Prelude.Json.{Payload}
use ghost_bazaar.Engine.Types.{
  EventType, NegotiationEvent, rfq_created, offer_submitted, counter_sent, quote_committed,
  negotiation_expired, negotiation_cancelled,
}
use ghost_bazaar.Engine.Session.{opt_str, is_selected}

-- `TERMINAL_EVENT_TYPES.has(type)`
unfoldable pub is_terminal_type : EventType → Bool
is_terminal_type quote_committed = true
is_terminal_type negotiation_expired = true
is_terminal_type negotiation_cancelled = true
is_terminal_type _ = false

-- `typeof payload[key] === "string" && payload[key] === callerDid`
abbrev pub payload_names : Payload → String → String → Bool
payload_names payload key caller = is_selected caller (opt_str payload key)

-- The `switch` for a caller that is not the buyer.
unfoldable pub is_visible_to_seller : EventType → NegotiationEvent → String → Bool
is_visible_to_seller rfq_created e caller = true
is_visible_to_seller negotiation_expired e caller = true
is_visible_to_seller negotiation_cancelled e caller = true
is_visible_to_seller offer_submitted e caller = e.actor === caller
is_visible_to_seller counter_sent e caller = payload_names e.payload "to" caller
is_visible_to_seller _ e caller = payload_names e.payload "seller" caller

unfoldable pub is_event_visible_to : NegotiationEvent → String → String → Bool
is_event_visible_to e caller buyer =
    if caller === buyer then true else is_visible_to_seller e.type e caller
