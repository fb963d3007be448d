-- ===== src/Examples/Commitments.antt =====
-- A negotiation from its RFQ to the signed quote, and what the theorems on reachable sessions say of
-- it.
use ghost_bazaar.Prelude.{
  ◌≤◌, ◌≢◌, [], ◌∷◌, All, inl, ◌≡◌, refl, String, ◌===◌, any, find, none, some, length, count, List,
  ok,
}
use ghost_bazaar.Prelude.Dict.{lookup, insert}
use ghost_bazaar.Prelude.Json.{end, Value, get, put}
use ghost_bazaar.Core.Amounts.{
  normalize_amount, normalize_with_decimals, normalize_parts, split_point, is_decimal, all_digits,
  read_digits, fit,
}
use ghost_bazaar.Engine.Http.{require_positive_amount, verify_quote_signature, did_key}
use ghost_bazaar.Engine.StateMachine.{is_valid_transition, transition_rules}
use ghost_bazaar.Engine.Types.{NegotiationEvent, settlement_confirmed, committed}
use ghost_bazaar.Engine.Session.Final.{final_session_stays}
use ghost_bazaar.Engine.Session.{
  replay, derive_state, DerivedSession, has_seller, open_session, apply_event, read_rfq, initial,
  handle, on_offer, read_offer, on_winner, on_quote_signed, on_quote_committed,
}
use ghost_bazaar.Engine.Routes.Rfqs.{rfq_event}
use ghost_bazaar.Engine.Routes.Offers.{
  offer_event, decide_offer, find_by_seller_and_id, max_offers_per_session, max_offers_per_seller,
}
use ghost_bazaar.Engine.Routes.Accept.{
  accept_event, decide_accept, build_quote, max_accepts_per_session, max_accepts_per_seller,
}
use ghost_bazaar.Engine.Routes.QuoteSign.{quote_signed_event, decide_quote_sign, check_quote_expiry}
use ghost_bazaar.Engine.Routes.Cosign.{quote_committed_event, decide_cosign}
use ghost_bazaar.Engine.Routes.Steps.{
  Reachable, opened, stepped, by_offer, by_accept, by_quote_sign, by_cosign,
}
use ghost_bazaar.Engine.Routes.Commitment.{IsQuoteOf, IsSignedBy}
use ghost_bazaar.Engine.Routes.Commitment.Backed.{committed_quote_is_signed}
use ghost_bazaar.Engine.Session.Invariant.Tally.{is_offer, is_accept, is_accept_of}
use ghost_bazaar.Engine.Routes.Limits.{HasDistinctIds, IsRising}
use ghost_bazaar.Engine.Routes.Limits.Kept.{limits_are_kept}
use ghost_bazaar.Examples.World.{
  world, rfq_id, buyer, seller, signature, moment, rfq_body, offer_body, listings, listing, offer,
  ids, quote, session_opened, session_offered, session_accepted, session_signed, session_committed,
}

opened_Reachable : Reachable world session_opened
unfolding open_session read_rfq initial get ◌===◌
opened_Reachable = opened (rfq_event rfq_body (moment "e0")) session_opened refl

offered_Reachable : Reachable world session_offered
unfolding apply_event handle on_offer read_offer is_valid_transition transition_rules decide_offer
    any find_by_seller_and_id get lookup insert ◌===◌
offered_Reachable =
    stepped session_opened session_offered (offer_event rfq_id offer_body listing (moment "e1"))
      opened_Reachable (by_offer rfq_id offer_body listings (moment "e1") refl) refl

accepted_Reachable : Reachable world session_accepted
unfolding apply_event handle on_winner is_valid_transition transition_rules decide_accept
    build_quote require_positive_amount normalize_amount normalize_with_decimals normalize_parts
    split_point is_decimal all_digits read_digits fit any find get lookup insert ◌===◌
accepted_Reachable =
    stepped session_offered session_accepted
      (accept_event rfq_id seller offer.offer_id quote (moment "e2") session_offered)
      offered_Reachable (by_accept none rfq_id seller offer.offer_id "e1" ids (moment "e2") refl)
      refl

signed_Reachable : Reachable world session_signed
unfolding apply_event handle on_quote_signed is_valid_transition transition_rules decide_quote_sign
    check_quote_expiry verify_quote_signature did_key any get put lookup ◌===◌
signed_Reachable =
    stepped session_accepted session_signed
      (quote_signed_event rfq_id signature (moment "e3") session_accepted) accepted_Reachable
      (by_quote_sign rfq_id signature (moment "e3") refl) refl

pub committed_Reachable : Reachable world session_committed
unfolding apply_event handle on_quote_committed is_valid_transition transition_rules decide_cosign
    check_quote_expiry verify_quote_signature did_key any get put lookup ◌===◌
committed_Reachable =
    stepped session_signed session_committed
      (quote_committed_event rfq_id signature seller (moment "e4")) signed_Reachable
      (by_cosign rfq_id signature (moment "e4") refl) refl

committed_quote_is_signed_example :
    (q : Value) × (chosen b c : String) × (session_committed.unsigned_quote ≡ some q)
    × IsQuoteOf world session_committed q
    × (session_committed.selected_seller ≡ some chosen)
    × (session_committed.buyer_signature ≡ some b)
    × IsSignedBy world buyer q b
    × (session_committed.seller_signature ≡ some c)
    × IsSignedBy world chosen q c
committed_quote_is_signed_example =
    committed_quote_is_signed world session_committed committed_Reachable refl

abbrev log_committed : List NegotiationEvent
log_committed =
    rfq_event rfq_body (moment "e0")
    ∷ offer_event rfq_id offer_body listing (moment "e1")
    ∷ accept_event rfq_id seller offer.offer_id quote (moment "e2") session_offered
    ∷ quote_signed_event rfq_id signature (moment "e3") session_accepted
    ∷ quote_committed_event rfq_id signature seller (moment "e4")
    ∷ []

committed_derived : derive_state log_committed ≡ ok (some session_committed)
unfolding derive_state replay open_session read_rfq initial apply_event handle on_offer read_offer
    on_winner on_quote_signed on_quote_committed is_valid_transition transition_rules any find get
    lookup insert ◌===◌
committed_derived = refl

limits_are_kept_example :
    (count is_offer log_committed ≤ max_offers_per_session)
    × (count is_accept log_committed ≤ max_accepts_per_session)
    × ((s : String) → count (is_accept_of s) log_committed ≤ max_accepts_per_seller)
    × (length session_committed.offers ≤ max_offers_per_session)
    × ((s : String) → count (has_seller s) session_committed.offers ≤ max_offers_per_seller)
    × HasDistinctIds session_committed.offers
    × IsRising 0 session_committed.counters
limits_are_kept_example =
    limits_are_kept world log_committed session_committed committed_derived committed_Reachable

abbrev confirmed : NegotiationEvent
confirmed = record {
  event_id = "e5";
  rfq_id = rfq_id;
  type = settlement_confirmed;
  timestamp = "t5";
  actor = seller;
  payload = end;
}

abbrev session_settled : DerivedSession
session_settled = record session_committed { last_event_id = "e5" }

final_session_stays_example :
    (session_settled ≡ record session_committed { last_event_id = "e5" })
    × All (λ e. e.type ≡ settlement_confirmed) (confirmed ∷ [])
    × ((session_committed.state ≢ committed) → confirmed ∷ [] ≡ [])
unfolding replay apply_event handle is_valid_transition transition_rules
final_session_stays_example =
    final_session_stays (confirmed ∷ []) session_committed session_settled (inl refl) refl
