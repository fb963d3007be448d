-- ===== src/Engine/Routes.antt =====
-- packages/engine/src/routes: the handlers that write to a session. Each has the checks before the
-- lock, and a decision under the lock that gives the event to append.
pub mod Rfqs
pub mod Offers
pub mod Counters
pub mod Accept
pub mod QuoteSign
pub mod Cosign
pub mod Decline
pub mod Settle
pub mod Steps
pub mod Commitment
pub mod Limits
