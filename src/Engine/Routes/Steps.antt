-- ===== src/Engine/Routes/Steps.antt =====
-- The steps that the routes and the deadline enforcer take with a session, and the sessions that
-- these steps reach.
pub mod Decisions
pub mod Served
pub mod Sections
pub mod System
use ghost_bazaar.Prelude.{ℕ, String, ◌≡◌, Option, some, Result, ok}
use ghost_bazaar.Prelude.Dict.{Dict}
use ghost_bazaar.Prelude.Json.{Payload}
use ghost_bazaar.Core.External.{Externals}
use ghost_bazaar.Engine.Types.{NegotiationEvent, settlement_confirmed}
use ghost_bazaar.Engine.Session.{DerivedSession, apply_event, open_session}
use ghost_bazaar.Engine.Http.{Moment}
use ghost_bazaar.Engine.DeadlineEnforcer.{decide_expire, decide_timeout}
use ghost_bazaar.Engine.Routes.Offers.{Listing, decide_offer}
use ghost_bazaar.Engine.Routes.Counters.{decide_counter}
use ghost_bazaar.Engine.Routes.Accept.{QuoteIds, decide_accept}
use ghost_bazaar.Engine.Routes.QuoteSign.{decide_quote_sign}
use ghost_bazaar.Engine.Routes.Cosign.{decide_cosign}
use ghost_bazaar.Engine.Routes.Decline.{decide_decline}

module _ (x : Externals) where
  -- The event `e` is what some request, or a scan, decides to append to the session `s`.
  pub data Decided (s : DerivedSession) (e : NegotiationEvent) : Type 0 where
    by_offer :
        (k : String) (body : Payload) (listings : Dict Listing) (t : Moment)
        → decide_offer x k body listings t s ≡ ok e
        → Decided s e
    by_counter :
        (k : String) (body : Payload) (t : Moment)
        → decide_counter x k body t s ≡ ok e
        → Decided s e
    by_accept :
        (window : Option ℕ) (k seller offer_id revision : String) (ids : QuoteIds) (t : Moment)
        → decide_accept x window k seller offer_id revision ids t s ≡ ok e
        → Decided s e
    by_quote_sign :
        (k signature : String) (t : Moment)
        → decide_quote_sign x k signature t s ≡ ok e
        → Decided s e
    by_cosign :
        (k signature : String) (t : Moment) → decide_cosign x k signature t s ≡ ok e → Decided s e
    by_decline :
        (k signer revision : String) (t : Moment)
        → decide_decline x k signer revision t s ≡ ok e
        → Decided s e
    by_expiry : (k : String) (t : Moment) → decide_expire x k t s ≡ some e → Decided s e
    by_timeout :
        (timeout : ℕ) (k : String) (t : Moment)
        → decide_timeout x timeout k t s ≡ some e
        → Decided s e

  pub data Reachable : DerivedSession → Type 0 where
    opened :
        (first : NegotiationEvent) (s : DerivedSession) → open_session first ≡ ok s → Reachable s
    stepped :
        (s t : DerivedSession) (e : NegotiationEvent)
        → Reachable s
        → Decided s e
        → apply_event e s ≡ ok t
        → Reachable t
    -- The settlement routes decide by the log and the chain; of their event only the type counts.
    paid :
        (s t : DerivedSession) (e : NegotiationEvent)
        → Reachable s
        → e.type ≡ settlement_confirmed
        → apply_event e s ≡ ok t
        → Reachable t
