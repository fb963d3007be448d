-- ===== src/Engine/Routes/Commitment/Decisions.antt =====
-- What the decisions of the commitment routes say of the session, and what the reducer makes of
-- their events.
use ghost_bazaar.Prelude.{
  ℕ, ◌+◌, ltb, min, String, ◌===◌, ===_iff, ◌≡◌, sym, ap, ◌∙◌, arith, true, false, not, any, find,
  [], ◌∷◌, Option, none, some, ok, ◌>>◌, or_throw, >>=-eq-ok, require-eq-ok, require-true, suc,
}
use ghost_bazaar.Prelude.Dict.{lookup}
use ghost_bazaar.Prelude.Json.{Value, obj, Payload, get, as_string}
use ghost_bazaar.Core.External.{Externals}
use ghost_bazaar.Engine.Types.{NegotiationEvent, commit_pending, negotiating}
use ghost_bazaar.Engine.Session.{
  DerivedSession, RecordedOffer, bump, or_zero, has_offer_id, has_seller, is_selected, on_winner,
  on_quote_signed, on_quote_committed, wrong_actor, not_the_buyer,
}
use ghost_bazaar.Engine.Session.Inversion.{or_throw-eq-ok, is_selected-eq_some}
use ghost_bazaar.Engine.Http.{
  Reply, Moment, text_of, assert_state, has_passed, did_key, require_positive_amount,
  verify_quote_signature,
}
use ghost_bazaar.Engine.Routes.Accept.{
  QuoteIds, quote_fields, hash_of, accept_event, build_quote, decide_accept, is_offer_of,
  settlement_window, max_accepts_per_session, max_accepts_per_seller,
}
use ghost_bazaar.Engine.Routes.QuoteSign.{
  quote_of, is_none, nullable, quote_signed_event, check_quote_expiry, decide_quote_sign,
}
use ghost_bazaar.Engine.Routes.Cosign.{quote_committed_event, decide_cosign}
use ghost_bazaar.Engine.Routes.Commitment.{IsSignedBy}

-- The reducer on the event of an accepted offer.
pub winner_of_accept :
    (k seller offer_id : String) (quote : Payload) (t : Moment) (s' s u : DerivedSession)
    → on_winner (accept_event k seller offer_id quote t s') s ≡ ok u
    → (o : RecordedOffer) × (find (has_offer_id offer_id) s.offers ≡ some o)
      × (o.seller ≡ seller)
      × (u ≡ record s {
        selected_seller = some seller;
        selected_offer_id = some offer_id;
        quote_revision = suc s.quote_revision;
        total_accept_attempts = suc s.total_accept_attempts;
        accept_attempts_by_seller = bump seller s.accept_attempts_by_seller;
        unsigned_quote = some (obj quote);
        commit_pending_at = some t.timestamp;
        buyer_signature = none;
        seller_signature = none;
      })
unfolding on_winner get ◌===◌
winner_of_accept k seller offer_id quote t s' s u h =
    let (buyer, rest) = require-eq-ok (s'.rfq.buyer === s.rfq.buyer) not_the_buyer _ h in
    let (o, found, last) = >>=-eq-ok (or_throw (find (has_offer_id offer_id) s.offers) _) _ rest in
    let (owner, done) = require-eq-ok (o.seller === seller) _ _ last in
    (o, or_throw-eq-ok _ _ found, (===_iff _ _).0 owner, cc)

pub signed_by_buyer :
    (k signature : String) (t : Moment) (s' s u : DerivedSession)
    → on_quote_signed (quote_signed_event k signature t s') s ≡ ok u
    → u ≡ record s { buyer_signature = some signature }
unfolding on_quote_signed get ◌===◌
signed_by_buyer k signature t s' s u h =
    let (seller, _, after) =
      >>=-eq-ok (or_throw (as_string (some (nullable s'.selected_seller))) _) _ h in
    let (selected, rest) = require-eq-ok (is_selected seller s.selected_seller) _ _ after in
    let (buyer, last) = require-eq-ok (s'.rfq.buyer === s.rfq.buyer) not_the_buyer _ rest in cc

pub signed_by_seller :
    (k signature seller : String) (t : Moment) (s u : DerivedSession)
    → on_quote_committed (quote_committed_event k signature seller t) s ≡ ok u
    → (s.selected_seller ≡ some seller) × (u ≡ record s { seller_signature = some signature })
unfolding on_quote_committed get ◌===◌
signed_by_seller k signature seller t s u h =
    let (selected, rest) = require-eq-ok (is_selected seller s.selected_seller) _ _ h in
    let (actor, done) = require-eq-ok (is_selected seller s.selected_seller) wrong_actor _ rest in
    (is_selected-eq_some _ _ selected, cc)

module _ (x : Externals) where
  verify_quote_signature-IsSignedBy :
      (q : Value) (signature did code : String) (k : Reply NegotiationEvent) {e : NegotiationEvent}
      → (verify_quote_signature x (quote_of q) signature did code >> k) ≡ ok e
      → IsSignedBy x did q signature × (k ≡ ok e)
  unfolding verify_quote_signature did_key
  verify_quote_signature-IsSignedBy q signature did code k h =
      let (_, verified, last) =
        >>=-eq-ok (verify_quote_signature x (quote_of q) signature did code) _ h in
      let (key, found, checked) = >>=-eq-ok (did_key x did) _ verified in
      ((key, or_throw-eq-ok _ _ found, require-true _ _ checked), last)

  -- An accepted offer: the quote is built from it, and neither limit on accepts is reached.
  pub decide_accept-eq_ok :
      (window : Option ℕ) (k seller offer_id revision : String) (ids : QuoteIds) (t : Moment)
      (s : DerivedSession) (e : NegotiationEvent)
      → decide_accept x window k seller offer_id revision ids t s ≡ ok e
      → (o : RecordedOffer) × (at : String) × (find (has_offer_id offer_id) s.offers ≡ some o)
        × (ltb s.total_accept_attempts max_accepts_per_session ≡ true)
        × (ltb (or_zero (lookup seller s.accept_attempts_by_seller)) max_accepts_per_seller ≡ true)
        × (e
            ≡ accept_event k seller offer_id
                (quote_fields s.rfq o ids at (hash_of x s.rfq.spec))
                t
                s)
  unfolding decide_accept build_quote
  decide_accept-eq_ok window k seller offer_id revision ids t s e h =
      let (_, h₁) = require-eq-ok (not (has_passed x s.rfq.deadline t.now)) _ _ h in
      let (_, _, h₂) = >>=-eq-ok (assert_state s.state (negotiating ∷ [])) _ h₁ in
      let (_, h₃) = require-eq-ok (any (has_seller seller) s.offers) _ _ h₂ in
      let (offer, _, h₄) =
        >>=-eq-ok (or_throw (find (is_offer_of offer_id seller) s.offers) _) _ h₃ in
      let (_, h₅) = require-eq-ok (revision === s.last_event_id) _ _ h₄ in
      let (_, h₆) = require-eq-ok (not (has_passed x offer.valid_until t.now)) _ _ h₅ in
      let (total, h₇) =
        require-eq-ok (ltb s.total_accept_attempts max_accepts_per_session) _ _ h₆ in
      let (each, h₈) =
        require-eq-ok
          (ltb (or_zero (lookup seller s.accept_attempts_by_seller)) max_accepts_per_seller) _ _
          h₇ in
      let (quote, built, h₉) = >>=-eq-ok (build_quote x window offer_id ids t.now s) _ h₈ in
      let (_, _, done) =
        >>=-eq-ok
          (require_positive_amount (text_of quote "final_price") s.rfq.currency "invalid_amount") _
          h₉ in
      let (o, found, b₁) = >>=-eq-ok (or_throw (find (has_offer_id offer_id) s.offers) _) _ built in
      let (d, _, b₂) = >>=-eq-ok (or_throw (x.parse_date s.rfq.deadline) _) _ b₁ in
      let at : String = x.iso_date (min d (t.now + settlement_window window)) in
      let same : quote ≡ quote_fields s.rfq o ids at (hash_of x s.rfq.spec) = cc in
      (
        o,
        at,
        or_throw-eq-ok _ _ found,
        total,
        each,
        ok-event (ap (λ q. ok (accept_event k seller offer_id q t s)) (sym same) ∙ done),
      )
    where
      ok-event : {e f : NegotiationEvent} → ◌≡◌ {A = Reply NegotiationEvent} (ok f) (ok e) → e ≡ f
      ok-event p = cc

  pub decide_quote_sign-eq_ok :
      (k signature : String) (t : Moment) (s : DerivedSession) (e : NegotiationEvent)
      → decide_quote_sign x k signature t s ≡ ok e
      → (q : Value) × (s.unsigned_quote ≡ some q)
        × IsSignedBy x s.rfq.buyer q signature
        × (e ≡ quote_signed_event k signature t s)
  unfolding decide_quote_sign
  decide_quote_sign-eq_ok k signature t s e h =
      let (_, h₁) = require-eq-ok (not (has_passed x s.rfq.deadline t.now)) _ _ h in
      let (_, _, h₂) = >>=-eq-ok (check_quote_expiry x s.unsigned_quote t.now) _ h₁ in
      let (_, _, h₃) = >>=-eq-ok (assert_state s.state (commit_pending ∷ [])) _ h₂ in
      let (q, found, h₄) = >>=-eq-ok (or_throw s.unsigned_quote _) _ h₃ in
      let (_, h₅) = require-eq-ok (is_none s.buyer_signature) _ _ h₄ in
      let (signed, done) = verify_quote_signature-IsSignedBy q signature s.rfq.buyer _ _ h₅ in
      (q, or_throw-eq-ok _ _ found, signed, cc)

  pub decide_cosign-eq_ok :
      (k signature : String) (t : Moment) (s : DerivedSession) (e : NegotiationEvent)
      → decide_cosign x k signature t s ≡ ok e
      → (q : Value) × (seller : String) × (s.unsigned_quote ≡ some q)
        × (is_none s.buyer_signature ≡ false)
        × (s.selected_seller ≡ some seller)
        × IsSignedBy x seller q signature
        × (e ≡ quote_committed_event k signature seller t)
  unfolding decide_cosign
  decide_cosign-eq_ok k signature t s e h =
      let (_, h₁) = require-eq-ok (not (has_passed x s.rfq.deadline t.now)) _ _ h in
      let (_, _, h₂) = >>=-eq-ok (check_quote_expiry x s.unsigned_quote t.now) _ h₁ in
      let (_, _, h₃) = >>=-eq-ok (assert_state s.state (commit_pending ∷ [])) _ h₂ in
      let (q, found, h₄) = >>=-eq-ok (or_throw s.unsigned_quote _) _ h₃ in
      let (signed_before, h₅) = require-eq-ok (not (is_none s.buyer_signature)) _ _ h₄ in
      let (seller, selected, h₆) = >>=-eq-ok (or_throw s.selected_seller _) _ h₅ in
      let (signed, done) = verify_quote_signature-IsSignedBy q signature seller _ _ h₆ in
      (q, seller, or_throw-eq-ok _ _ found, ground arith, or_throw-eq-ok _ _ selected, signed, cc)
