-- ===== src/Engine/Routes/Accept.antt =====
-- packages/engine/src/routes/accept.ts and util/quote-builder.ts: POST /rfqs/:id/accept.
use ghost_bazaar.Prelude.{
  ℕ, ◌+◌, ltb, min, max, String, ◌===◌, Bool, not, any, find, ◌&&◌, [], ◌∷◌, Option, none, some, ok,
  ◌>>=◌, ◌>>◌, require, or_throw,
}
use ghost_bazaar.Prelude.Dict.{lookup}
use ghost_bazaar.Prelude.Json.{Value, str, obj, Payload, field, end, get, opt_field, as_string}
use ghost_bazaar.Core.External.{Externals}
use ghost_bazaar.Engine.Types.{NegotiationEvent, winner_selected, negotiating}
use ghost_bazaar.Engine.Session.{
  DerivedSession, RecordedOffer, SessionRfq, or_zero, has_offer_id, has_seller,
}
use ghost_bazaar.Engine.SessionManager.{SessionManager, get_session}
use ghost_bazaar.Engine.Http.{
  http, Reply, Moment, lift, text_of, assert_state, has_passed, require_positive_amount,
  locked_append,
}
use ghost_bazaar.Engine.ControlEnvelope.{Tombstones, validate_control_envelope}

abbrev pub max_accepts_per_session : ℕ
max_accepts_per_session = 6

abbrev pub max_accepts_per_seller : ℕ
max_accepts_per_seller = 2

-- The settlement window of a quote, in milliseconds, clamped to its bounds.
abbrev pub settlement_window : Option ℕ → ℕ
settlement_window none = max 60000 (min 600000 300000)
settlement_window (some ms) = max 60000 (min 600000 ms)

-- The random part of a quote.
pub record QuoteIds : Type 0 where
  pub quote_id : String
  pub nonce : String

abbrev pub is_offer_of : String → String → RecordedOffer → Bool
is_offer_of id seller o = has_offer_id id o && has_seller seller o

-- The unsigned quote, as it is stored in the event.
abbrev pub quote_fields : SessionRfq → RecordedOffer → QuoteIds → String → Option Value → Payload
quote_fields rfq offer ids expires_at hash = field "quote_id" (str ids.quote_id) (
    field "rfq_id" (str rfq.rfq_id) (
      field "buyer" (str rfq.buyer) (
        field "seller" (str offer.seller) (
          field "service_type" (str rfq.service_type) (
            field "final_price" (str offer.price) (
              field "currency" (str offer.currency) (
                field "payment_endpoint" (str offer.payment_endpoint) (
                  field "expires_at" (str expires_at) (
                    field "nonce" (str ids.nonce) (
                      field "memo_policy" (str "quote_id_required") (
                        field "buyer_signature" (str "") (
                          field "seller_signature" (str "")
                            (opt_field "spec_hash" hash end)))))))))))))

abbrev pub accept_event :
    String → String → String → Payload → Moment → DerivedSession → NegotiationEvent
accept_event rfq_id seller offer_id quote t s = record {
  event_id = t.uuid;
  rfq_id = rfq_id;
  type = winner_selected;
  timestamp = t.timestamp;
  actor = s.rfq.buyer;
  payload =
      field "seller" (str seller) (field "offer_id" (str offer_id) (field "quote" (obj quote) end));
}

module _ (x : Externals) where
  abbrev pub hash_of : Option Value → Option Value
  hash_of none = none
  hash_of (some spec) = some (str (x.spec_hash spec))

  -- `buildQuoteFromSession`: the quote expires at the deadline or at the end of the window, whichever
  -- comes first. A deadline that is no date throws.
  unfoldable pub build_quote : Option ℕ → String → QuoteIds → ℕ → DerivedSession → Reply Payload
  build_quote window offer_id ids now s = do
    offer ← or_throw (find (has_offer_id offer_id) s.offers) (http 500 "internal_error")
    deadline ← or_throw (x.parse_date s.rfq.deadline) (http 500 "internal_error")
    ok (
        quote_fields s.rfq offer ids (x.iso_date (min deadline (now + settlement_window window)))
          (hash_of s.rfq.spec))

  -- Steps 4a to 4k, inside the lock.
  unfoldable pub decide_accept :
      Option ℕ
      → String
      → String
      → String
      → String
      → QuoteIds
      → Moment
      → DerivedSession
      → Reply NegotiationEvent
  decide_accept window rfq_id seller offer_id revision ids t s = do
    require (not (has_passed x s.rfq.deadline t.now)) (http 409 "session_expired")
    assert_state s.state (negotiating ∷ [])
    require (any (has_seller seller) s.offers) (http 404 "seller_not_found")
    offer ← or_throw (find (is_offer_of offer_id seller) s.offers) (http 404 "offer_not_found")
    require (revision === s.last_event_id) (http 409 "stale_revision")
    require (not (has_passed x offer.valid_until t.now)) (http 422 "invalid_expiry")
    require (ltb s.total_accept_attempts max_accepts_per_session) (http 422 "accept_limit_exceeded")
    require (ltb (or_zero (lookup seller s.accept_attempts_by_seller)) max_accepts_per_seller)
        (http 422 "accept_limit_exceeded")
    quote ← build_quote window offer_id ids t.now s
    require_positive_amount (text_of quote "final_price") s.rfq.currency "invalid_amount"
    ok (accept_event rfq_id seller offer_id quote t s)

  -- The whole handler. The envelope is checked at `now` on the tombstones `tombs` and used up when
  -- its signature is verified, at `later` on those that there are then, also if the decision
  -- fails; the second component are the tombstones after that.
  unfoldable pub post_accept :
      Option ℕ
      → String
      → Option Payload
      → QuoteIds
      → ℕ
      → Tombstones
      → ℕ
      → Tombstones
      → SessionManager
      → Moment
      → SessionManager
      → Reply (Reply (DerivedSession × SessionManager) × Tombstones)
  post_accept window rfq_id body ids now tombs later tombs_later before t m = do
    b ← or_throw body (http 400 "malformed_payload")
    (session, _) ← lift (get_session rfq_id now before)
    s ← or_throw session (http 404 "session_not_found")
    (envelope, tombs') ←
        validate_control_envelope x b "accept" rfq_id s.rfq.buyer "invalid_buyer_signature" now
          tombs later tombs_later
    ok (
      (do
        seller ← or_throw (as_string (get envelope.payload "seller")) (http 400 "malformed_payload")
        offer_id ←
            or_throw (as_string (get envelope.payload "offer_id")) (http 400 "malformed_payload")
        locked_append rfq_id t
            (decide_accept window rfq_id seller offer_id envelope.session_revision ids t) m),
      tombs',
    )
