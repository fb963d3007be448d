-- ===== src/Engine/Routes/Offers.antt =====
-- packages/engine/src/routes/offers.ts: POST /rfqs/:id/offers.
use ghost_bazaar.Prelude.{
  ℕ, leb, ltb, String, ◌===◌, not, any, [], ◌∷◌, Option, none, some, Result, ok, err, ◌>>=◌, ◌>>◌,
  require, or_throw,
}
use ghost_bazaar.Prelude.Dict.{Dict, lookup}
use ghost_bazaar.Prelude.Json.{Value, str, obj, Payload, field, end, get, opt_field, as_string}
use ghost_bazaar.Core.External.{Externals}
use ghost_bazaar.Core.Schemas.{
  Code, RfqTerms, rfq_id_mismatch, invalid_amount, currency_mismatch, invalid_expiry,
  validate_offer, says,
}
use ghost_bazaar.Engine.Types.{NegotiationEvent, offer_submitted, open_state, negotiating}
use ghost_bazaar.Engine.Session.{DerivedSession, SessionRfq, or_zero, has_offer_id}
use ghost_bazaar.Engine.SessionManager.{SessionManager, get_session}
pub use ghost_bazaar.Engine.ListingStore.{Listing}
unfoldable pub use ghost_bazaar.Engine.ListingStore.{find_by_seller_and_id}
use ghost_bazaar.Engine.Http.{
  Failure, http, Reply, Moment, lift, text_of, assert_state, has_passed, require_positive_amount,
  pre_check_signature_format, verify_signature, locked_append,
}

abbrev pub max_offers_per_session : ℕ
max_offers_per_session = 50

abbrev pub max_offers_per_seller : ℕ
max_offers_per_seller = 5

abbrev pub terms_of : SessionRfq → RfqTerms
terms_of rfq = record {
  rfq_id = rfq.rfq_id;
  currency = rfq.currency;
  budget_commitment = rfq.budget_commitment;
}

abbrev offer_failure : Code → Failure
offer_failure rfq_id_mismatch = http 400 "rfq_id_mismatch"
offer_failure invalid_amount = http 422 "invalid_amount"
offer_failure currency_mismatch = http 422 "currency_mismatch"
offer_failure invalid_expiry = http 422 "invalid_expiry"
offer_failure _ = http 400 "malformed_payload"

abbrev checked_offer : Result Code (Unit {0}) → Reply (Unit {0})
checked_offer (ok u) = ok tt
checked_offer (err c) = err (offer_failure c)

-- `extractOfferFields`
abbrev signed_offer_fields : Payload → Payload
signed_offer_fields body = opt_field "offer_id" (get body "offer_id") (
    opt_field "rfq_id" (get body "rfq_id") (
      opt_field "seller" (get body "seller") (
        opt_field "listing_id" (get body "listing_id") (
          opt_field "price" (get body "price") (
            opt_field "currency" (get body "currency") (
              opt_field "valid_until" (get body "valid_until") (
                opt_field "signature" (get body "signature")
                  (opt_field "extensions" (get body "extensions") end))))))))

-- The event of an admitted offer; its payment endpoint is the listing's.
abbrev pub offer_event : String → Payload → Listing → Moment → NegotiationEvent
offer_event rfq_id body listing t = record {
  event_id = t.uuid;
  rfq_id = rfq_id;
  type = offer_submitted;
  timestamp = t.timestamp;
  actor = text_of body "seller";
  payload = field "rfq_id" (str rfq_id) (
      field "offer_id" (str (text_of body "offer_id")) (
        field "seller" (str (text_of body "seller")) (
          field "price" (str (text_of body "price")) (
            field "currency" (str (text_of body "currency")) (
              field "valid_until" (str (text_of body "valid_until")) (
                field "signature" (str (text_of body "signature")) (
                  field "listing_id" (str (text_of body "listing_id")) (
                    field "payment_endpoint" (str listing.payment_endpoint)
                      (opt_field "extensions" (get body "extensions") end)))))))));
}

module _ (x : Externals) where
  -- A plain object of at most 4096 characters, if it is there.
  unfoldable pub check_extensions : Option Value → Reply (Unit {0})
  check_extensions none = ok tt
  check_extensions (some (obj p)) =
      require (leb (x.json_length (obj p)) 4096) (http 400 "malformed_payload")
  check_extensions (some v) = err (http 400 "malformed_payload")

  -- Steps 7 and 8, inside the lock.
  unfoldable pub decide_offer :
      String → Payload → Dict Listing → Moment → DerivedSession → Reply NegotiationEvent
  decide_offer rfq_id body listings t s = do
    require (not (has_passed x s.rfq.deadline t.now)) (http 409 "session_expired")
    assert_state s.state (open_state ∷ negotiating ∷ [])
    require (not (any (has_offer_id (text_of body "offer_id")) s.offers))
        (http 409 "duplicate_object_id")
    require (ltb s.total_offer_count max_offers_per_session) (http 422 "session_offer_limit")
    require
        (ltb (or_zero (lookup (text_of body "seller") s.offer_count_by_seller))
          max_offers_per_seller)
        (http 422 "seller_offer_limit")
    listing ←
        or_throw
          (find_by_seller_and_id (text_of body "seller") (text_of body "listing_id") listings)
          (http 422 "missing_listing")
    require (not (listing.payment_endpoint === "")) (http 422 "missing_payment_endpoint")
    ok (offer_event rfq_id body listing t)

  -- Steps 2 to 6, before the lock.
  unfoldable pub check_offer : String → Payload → ℕ → DerivedSession → Reply (Unit {0})
  check_offer rfq_id body now s = do
    checked_offer (validate_offer x now body (terms_of s.rfq))
    require_positive_amount (text_of body "price") s.rfq.currency "invalid_amount"
    check_extensions (get body "extensions")
    require (says (get body "rfq_id") rfq_id) (http 400 "rfq_id_mismatch")
    pre_check_signature_format x (as_string (get body "signature")) (as_string (get body "seller"))
    verify_signature x (signed_offer_fields body) (text_of body "signature") (text_of body "seller")
        "invalid_seller_signature"

  -- The whole handler; `body` is `none` if it is no JSON object. `before` is the manager at the
  -- first read, and the lock is granted on `m`: other requests may have run in between.
  unfoldable pub post_offer :
      String
      → Option Payload
      → Dict Listing
      → ℕ
      → SessionManager
      → Moment
      → SessionManager
      → Reply (DerivedSession × SessionManager)
  post_offer rfq_id body listings now before t m = do
    b ← or_throw body (http 400 "malformed_payload")
    (session, _) ← lift (get_session rfq_id now before)
    s ← or_throw session (http 404 "session_not_found")
    check_offer rfq_id b now s
    locked_append rfq_id t (decide_offer rfq_id b listings t) m
