-- ===== src/Engine/Routes/Commitment.antt =====
-- What a commitment rests on: the quote of a session repeats the selected offer, and whoever has
-- signed has signed that quote.
pub mod Decisions
pub mod Transitions
pub mod Backed
use ghost_bazaar.Prelude.{ℕ, String, ◌≡◌, true, List, [], ◌∷◌, Option, none, some, find}
use ghost_bazaar.Prelude.Json.{Value, str, obj, Payload, put}
use ghost_bazaar.Core.External.{Externals}
use ghost_bazaar.Engine.Types.{committed}
use ghost_bazaar.Engine.Session.{DerivedSession, RecordedOffer, has_offer_id}
use ghost_bazaar.Engine.Routes.Accept.{QuoteIds, quote_fields, hash_of}
use ghost_bazaar.Engine.Routes.QuoteSign.{quote_of}

module _ (x : Externals) where
  -- The signature verifies over the quote with both signatures empty, under the signer's key.
  abbrev pub IsSignedBy : String → Value → String → Type 0
  IsSignedBy did q signature =
      (key : String) × (x.did_to_public_key did ≡ some key)
      × (x.verify_ed25519
            (put "seller_signature" (str "") (put "buyer_signature" (str "") (quote_of q)))
            signature key
          ≡ true)

  -- The quote that was built for the selected offer, with its random part and its expiry.
  abbrev pub IsQuoteOf : DerivedSession → Value → Type 0
  IsQuoteOf s q =
      (o : RecordedOffer) × (offer_id : String) × (ids : QuoteIds) × (expires_at : String)
      × (s.selected_offer_id ≡ some offer_id)
      × (find (has_offer_id offer_id) s.offers ≡ some o)
      × (s.selected_seller ≡ some o.seller)
      × (q ≡ obj (quote_fields s.rfq o ids expires_at (hash_of x s.rfq.spec)))

  pub record IsBacked (s : DerivedSession) : Type 0 where
    pub quoted : (q : Value) → s.unsigned_quote ≡ some q → IsQuoteOf s q
    pub buyer_signed :
        (signature : String)
        → s.buyer_signature ≡ some signature
        → (q : Value) × (s.unsigned_quote ≡ some q) × IsSignedBy s.rfq.buyer q signature
    pub seller_signed :
        (signature : String)
        → s.seller_signature ≡ some signature
        → (q : Value) × (seller : String) × (s.unsigned_quote ≡ some q)
          × (s.selected_seller ≡ some seller)
          × IsSignedBy seller q signature
    pub committed_signed :
        s.state ≡ committed
        → ((b : String) × (s.buyer_signature ≡ some b))
          × ((c : String) × (s.seller_signature ≡ some c))
