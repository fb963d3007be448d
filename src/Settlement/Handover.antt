-- ===== src/Settlement/Handover.antt =====
-- From the engine to the settlement: the quote that the cosign route returns is accepted.
use ghost_bazaar.Prelude.{ℕ, String, ◌===◌, ◌≡◌, refl, sym, ap, ◌∙◌, subst, true, Option, some, ok}
use ghost_bazaar.Prelude.Json.{Value, str, obj, Payload, get, put}
use ghost_bazaar.Core.External.{Externals}
use ghost_bazaar.Core.Schemas.{coerced, is_nonce}
use ghost_bazaar.Core.Quotes.{verify_quote}
use ghost_bazaar.Engine.Types.{committed}
use ghost_bazaar.Engine.Session.{DerivedSession, RecordedOffer, SessionRfq}
use ghost_bazaar.Engine.Routes.Accept.{QuoteIds, quote_fields, hash_of}
use ghost_bazaar.Engine.Routes.Cosign.{cosigned_quote}
use ghost_bazaar.Engine.Routes.Steps.{Reachable}
use ghost_bazaar.Engine.Routes.Commitment.{IsSignedBy}
use ghost_bazaar.Engine.Routes.Commitment.Backed.{committed_quote_is_signed}
use ghost_bazaar.Settlement.Expiry.{IsPayable, IsUnexpired}

module _ (x : Externals) where
  -- A quote with the two signatures, in the engine's order of fields.
  abbrev signed :
      SessionRfq → RecordedOffer → QuoteIds → String → Option Value → String → String → Payload
  signed rfq o ids at hash b c =
      put "seller_signature" (str c)
        (put "buyer_signature" (str b) (quote_fields rfq o ids at hash))

  verify_signed :
      (rfq : SessionRfq) (o : RecordedOffer) (ids : QuoteIds) (at : String) (hash : Option Value)
      (b c : String) (now : ℕ)
      → IsSignedBy x rfq.buyer (obj (quote_fields rfq o ids at hash)) b
      → IsSignedBy x o.seller (obj (quote_fields rfq o ids at hash)) c
      → IsPayable x (signed rfq o ids at hash b c)
      → IsUnexpired x now (signed rfq o ids at hash b c)
      → is_nonce (coerced x (get (signed rfq o ids at hash b c) "nonce")) ≡ true
      → verify_quote x now (signed rfq o ids at hash b c) ≡ ok tt
  unfolding verify_quote get put ◌===◌
  verify_signed rfq o ids at hash b c now (bk, buyer, bs) (sk, seller, ss) (price, currency, memo)
        unexpired nonce =
      rw (price, currency, unexpired, nonce, buyer, seller, bs, ss) refl

  cosigned_quote-signed :
      (s : DerivedSession) (q : Payload) (b c : String)
      → s.unsigned_quote ≡ some (obj q)
      → s.buyer_signature ≡ some b
      → s.seller_signature ≡ some c
      → cosigned_quote s ≡ put "seller_signature" (str c) (put "buyer_signature" (str b) q)
  cosigned_quote-signed s q b c quote buyer seller = rw (quote, buyer, seller) refl

  -- The fully signed quote that the cosign route returns for a committed session that the routes
  -- reach passes verifyQuote until it expires, if its price, currency and memo policy are among
  -- those that verifyQuote takes and its nonce has the right format.
  pub committed_quote_is_accepted :
      (s : DerivedSession) (now : ℕ)
      → Reachable x s
      → s.state ≡ committed
      → IsPayable x (cosigned_quote s)
      → IsUnexpired x now (cosigned_quote s)
      → is_nonce (coerced x (get (cosigned_quote s) "nonce")) ≡ true
      → verify_quote x now (cosigned_quote s) ≡ ok tt
  committed_quote_is_accepted s now r at payable unexpired nonce =
      let (
        q,
        seller,
        b,
        c,
        quote,
        (o, id, ids, expires_at, _, _, chosen, made),
        selected,
        has_b,
        bs,
        has_c,
        cs,
      ) =
        committed_quote_is_signed x s r at in
      let hash : Option Value = hash_of x s.rfq.spec in
      let fields : Payload = quote_fields s.rfq o ids expires_at hash in
      let owner : seller ≡ o.seller = cc in
      let same = cosigned_quote-signed s fields b c (quote ∙ ap some made) has_b has_c in
      subst (λ p. verify_quote x now p ≡ ok tt) (sym same)
        (verify_signed s.rfq o ids expires_at hash b c now
          (subst (λ v. IsSignedBy x s.rfq.buyer v b) made bs)
          (subst (λ v. IsSignedBy x o.seller v c) made (subst (λ d. IsSignedBy x d q c) owner cs))
          (subst (IsPayable x) same payable) (subst (IsUnexpired x now) same unexpired)
          (subst (λ p. is_nonce (coerced x (get p "nonce")) ≡ true) same nonce))
