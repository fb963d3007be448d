-- ===== src/Examples/World.antt =====
-- Two parties, one negotiation: the data of the examples. All dates are the same moment, every
-- signature verifies, and every DID has a key.
use ghost_bazaar.Prelude.{ℕ, String, true, [], ◌∷◌, none, some}
use ghost_bazaar.Prelude.Dict.{Dict}
use ghost_bazaar.Prelude.Json.{str, obj, Payload, field, end}
use ghost_bazaar.Core.External.{Externals}
use ghost_bazaar.Engine.Types.{open_state, negotiating, commit_pending, committed}
use ghost_bazaar.Engine.Session.{DerivedSession, RecordedOffer, SessionRfq}
use ghost_bazaar.Engine.Http.{Moment}
use ghost_bazaar.Engine.Routes.Offers.{Listing}
use ghost_bazaar.Engine.Routes.Accept.{QuoteIds, quote_fields}

abbrev pub world : Externals
world = record {
  parse_date = λ s. some 1000000;
  to_text = λ v. "";
  iso_date = λ n. "2026-01-01T00:16:40.000Z";
  is_decimal_positive = λ s. true;
  base64_bytes = λ s. 64;
  did_to_public_key = λ did. some did;
  verify_ed25519 = λ p s k. true;
  verify_budget_proof = λ v n s. true;
  show_number = λ n. "1";
  spec_hash = λ v. "sha256:0";
  json_length = λ v. 10;
}

abbrev pub rfq_id : String
rfq_id = "0b1c2d3e-4f50-4a6b-8c7d-0123456789ab"

abbrev pub buyer : String
buyer = "did:key:z6MkBuyer"

abbrev pub seller : String
seller = "did:key:z6MkSeller"

abbrev pub signature : String
signature = "ed25519:AAAA"

abbrev pub now : ℕ
now = 999000

-- A moment with the random id that the engine draws in it.
abbrev pub moment : String → Moment
moment id = record { now = now; uuid = id; timestamp = "2026-01-01T00:16:39.000Z" }

abbrev pub rfq_body : Payload
rfq_body = field "rfq_id" (str rfq_id) (
    field "protocol" (str "ghost-bazaar-v4") (
      field "buyer" (str buyer) (
        field "service_type" (str "ghost-bazaar:services:smart-contract-audit") (
          field "spec" (obj end) (
            field "anchor_price" (str "30.00") (
              field "currency" (str "USDC") (
                field "deadline" (str "2026-01-01T00:16:40.000Z")
                  (field "signature" (str signature) end))))))))

abbrev pub offer_body : Payload
offer_body = field "offer_id" (str "7b1c2d3e-4f50-4a6b-8c7d-0123456789ab") (
    field "rfq_id" (str rfq_id) (
      field "seller" (str seller) (
        field "listing_id" (str "listing-1") (
          field "price" (str "28.50") (
            field "currency" (str "USDC") (
              field "valid_until" (str "2026-01-01T00:16:40.000Z")
                (field "signature" (str signature) end)))))))

abbrev pub listing : Listing
listing = record {
  listing_id = "listing-1";
  seller = seller;
  registry_agent_id = some "42";
  title = "Storage";
  category = "compute";
  service_type = "storage";
  negotiation_endpoint = "https://seller.example/negotiate";
  payment_endpoint = "https://seller.example/pay";
  base_terms = end;
  negotiation_profile = none;
}

abbrev pub listings : Dict Listing
listings = ("listing-1", listing) ∷ []

abbrev pub rfq : SessionRfq
rfq = record {
  buyer = buyer;
  rfq_id = rfq_id;
  anchor_price = "30.00";
  currency = "USDC";
  deadline = "2026-01-01T00:16:40.000Z";
  service_type = "ghost-bazaar:services:smart-contract-audit";
  budget_commitment = none;
  spec = some (obj end);
}

abbrev pub offer : RecordedOffer
offer = record {
  offer_id = "7b1c2d3e-4f50-4a6b-8c7d-0123456789ab";
  seller = seller;
  price = "28.50";
  currency = "USDC";
  valid_until = "2026-01-01T00:16:40.000Z";
  listing_id = "listing-1";
  payment_endpoint = "https://seller.example/pay";
  extensions = none;
}

abbrev pub ids : QuoteIds
ids = record {
  quote_id = "quote-1";
  nonce = "0x000102030405060708090a0b0c0d0e0f101112131415161718191a1b1c1d1e1f";
}

abbrev pub quote : Payload
quote = quote_fields rfq offer ids "2026-01-01T00:16:40.000Z" (some (str "sha256:0"))

abbrev pub session_opened : DerivedSession
session_opened = record {
  state = open_state;
  rfq = rfq;
  offers = [];
  counters = [];
  selected_seller = none;
  selected_offer_id = none;
  quote_revision = 0;
  total_offer_count = 0;
  offer_count_by_seller = [];
  total_accept_attempts = 0;
  accept_attempts_by_seller = [];
  last_event_id = "e0";
  unsigned_quote = none;
  buyer_signature = none;
  seller_signature = none;
  commit_pending_at = none;
}

abbrev pub session_offered : DerivedSession
session_offered = record session_opened {
  state = negotiating;
  offers = offer ∷ [];
  total_offer_count = 1;
  offer_count_by_seller = (seller, 1) ∷ [];
  last_event_id = "e1";
}

abbrev pub session_accepted : DerivedSession
session_accepted = record session_offered {
  state = commit_pending;
  selected_seller = some seller;
  selected_offer_id = some offer.offer_id;
  quote_revision = 1;
  total_accept_attempts = 1;
  accept_attempts_by_seller = (seller, 1) ∷ [];
  unsigned_quote = some (obj quote);
  commit_pending_at = some (moment "e2").timestamp;
  last_event_id = "e2";
}

abbrev pub session_signed : DerivedSession
session_signed = record session_accepted { buyer_signature = some signature; last_event_id = "e3" }

abbrev pub session_committed : DerivedSession
session_committed = record session_signed {
  state = committed;
  seller_signature = some signature;
  last_event_id = "e4";
}
