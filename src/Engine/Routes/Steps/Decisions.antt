-- ===== src/Engine/Routes/Steps/Decisions.antt =====
-- What a decision that succeeds says of the session it was made on.
use ghost_bazaar.Prelude.{
  ℕ, ltb, String, ◌===◌, ===_iff, ◌≡◌, arith, Bool, true, false, not, any, [], ◌∷◌, Option, none,
  some, ok, or_throw, >>=-eq-ok, require-eq-ok, if◌then◌else◌,
}
use ghost_bazaar.Prelude.Dict.{Dict, lookup}
use ghost_bazaar.Prelude.Json.{Payload}
use ghost_bazaar.Core.External.{Externals}
use ghost_bazaar.Engine.Types.{NegotiationEvent, commit_pending, is_state, negotiating, open_state}
use ghost_bazaar.Engine.Session.{DerivedSession, or_zero, has_offer_id, has_seller}
use ghost_bazaar.Engine.Session.Inversion.{or_throw-eq-ok}
use ghost_bazaar.Engine.Http.{Reply, Moment, text_of, assert_state, has_passed}
use ghost_bazaar.Engine.ControlEnvelope.{nonempty}
use ghost_bazaar.Engine.DeadlineEnforcer.{
  expired_event, timeout_event, decide_expire, decide_timeout, is_recent,
}
use ghost_bazaar.Engine.Routes.Offers.{
  Listing, find_by_seller_and_id, offer_event, decide_offer, max_offers_per_session,
  max_offers_per_seller,
}
use ghost_bazaar.Engine.Routes.Counters.{counter_event, decide_counter, max_round, round_of}
use ghost_bazaar.Engine.Routes.Decline.{cosign_declined_event, decide_decline}

ok-reply : {e f : NegotiationEvent} → ◌≡◌ {A = Reply NegotiationEvent} (ok f) (ok e) → e ≡ f
ok-reply p = cc

-- The four tests of the timeout callback.
picked :
    (b : Bool) (o : Option String) (r : String → Bool) (p : Option String)
    (f : String → NegotiationEvent) {e : NegotiationEvent}
    → (if not b then none else elim o [
      | none ↦ none
      | some at ↦ if r at then none else elim p [ none ↦ none | some seller ↦ some (f seller) ]
    ])
      ≡ some e
    → (seller : String) × (e ≡ f seller)
picked false o r p f h = absurd (cc)
picked true none r p f h = absurd (cc)
picked true (some at) r none f h = absurd (ground arith)
picked true (some at) r (some seller) f h = (seller, ground arith)

module _ (x : Externals) where
  -- An admitted offer: its id is new and neither limit on offers is reached.
  pub decide_offer-eq_ok :
      (k : String) (body : Payload) (listings : Dict Listing) (t : Moment) (s : DerivedSession)
      (e : NegotiationEvent)
      → decide_offer x k body listings t s ≡ ok e
      → (listing : Listing) × (any (has_offer_id (text_of body "offer_id")) s.offers ≡ false)
        × (ltb s.total_offer_count max_offers_per_session ≡ true)
        × (ltb
              (or_zero (lookup (text_of body "seller") s.offer_count_by_seller))
              max_offers_per_seller
            ≡ true)
        × (find_by_seller_and_id (text_of body "seller") (text_of body "listing_id") listings
            ≡ some listing)
        × (e ≡ offer_event k body listing t)
  unfolding decide_offer
  decide_offer-eq_ok k body listings t s e h =
      let (_, h₁) = require-eq-ok (not (has_passed x s.rfq.deadline t.now)) _ _ h in
      let (_, _, h₂) = >>=-eq-ok (assert_state s.state (open_state ∷ negotiating ∷ [])) _ h₁ in
      let (fresh, h₃) =
        require-eq-ok (not (any (has_offer_id (text_of body "offer_id")) s.offers)) _ _ h₂ in
      let (total, h₄) = require-eq-ok (ltb s.total_offer_count max_offers_per_session) _ _ h₃ in
      let (each, h₅) =
        require-eq-ok
          (ltb (or_zero (lookup (text_of body "seller") s.offer_count_by_seller))
            max_offers_per_seller)
          _ _ h₄ in
      let (listing, found, h₆) =
        >>=-eq-ok
          (or_throw
            (find_by_seller_and_id (text_of body "seller") (text_of body "listing_id") listings) _)
          _ h₅ in
      let (_, done) = require-eq-ok (not (listing.payment_endpoint === "")) _ _ h₆ in
      (listing, ground arith, total, each, or_throw-eq-ok _ _ found, ok-reply done)

  -- A counter-offer that passes: its id is new and its round is higher than all before.
  pub decide_counter-eq_ok :
      (k : String) (body : Payload) (t : Moment) (s : DerivedSession) (e : NegotiationEvent)
      → decide_counter x k body t s ≡ ok e
      → (any (λ c. c.counter_id === text_of body "counter_id") s.counters ≡ false)
        × (ltb (max_round 0 s.counters) (round_of body) ≡ true)
        × (e ≡ counter_event k body t)
  unfolding decide_counter
  decide_counter-eq_ok k body t s e h =
      let (_, h₁) = require-eq-ok (not (has_passed x s.rfq.deadline t.now)) _ _ h in
      let (_, _, h₂) = >>=-eq-ok (assert_state s.state (negotiating ∷ [])) _ h₁ in
      let (_, h₃) = require-eq-ok (any (has_seller (text_of body "to")) s.offers) _ _ h₂ in
      let (fresh, h₄) =
        require-eq-ok (not (any (λ c. c.counter_id === text_of body "counter_id") s.counters)) _ _
          h₃ in
      let (higher, done) = require-eq-ok (ltb (max_round 0 s.counters) (round_of body)) _ _ h₄ in
      (ground arith, higher, ok-reply done)

  pub decide_decline-eq_ok :
      (k signer revision : String) (t : Moment) (s : DerivedSession) (e : NegotiationEvent)
      → decide_decline x k signer revision t s ≡ ok e
      → (seller : String) × (nonempty s.selected_seller ≡ some seller)
        × (seller ≡ signer)
        × (revision ≡ s.last_event_id)
        × (e ≡ cosign_declined_event k seller t)
  unfolding decide_decline
  decide_decline-eq_ok k signer revision t s e h =
      let (_, h₁) = require-eq-ok (not (has_passed x s.rfq.deadline t.now)) _ _ h in
      let (_, _, h₂) = >>=-eq-ok (assert_state s.state (commit_pending ∷ [])) _ h₁ in
      let (seller, found, h₃) = >>=-eq-ok (or_throw (nonempty s.selected_seller) _) _ h₂ in
      let (same, h₄) = require-eq-ok (seller === signer) _ _ h₃ in
      let (current, done) = require-eq-ok (revision === s.last_event_id) _ _ h₄ in
      (
        seller,
        or_throw-eq-ok _ _ found,
        (===_iff _ _).0 same,
        (===_iff _ _).0 current,
        ok-reply done,
      )

  pub decide_expire-eq_some :
      (k : String) (t : Moment) (s : DerivedSession) (e : NegotiationEvent)
      → decide_expire x k t s ≡ some e
      → e ≡ expired_event k t
  unfolding decide_expire
  decide_expire-eq_some k t s e h = ground arith

  pub decide_timeout-eq_some :
      (timeout : ℕ) (k : String) (t : Moment) (s : DerivedSession) (e : NegotiationEvent)
      → decide_timeout x timeout k t s ≡ some e
      → (seller : String) × (e ≡ timeout_event k seller t)
  unfolding decide_timeout
  decide_timeout-eq_some timeout k t s e h =
      picked (is_state s.state commit_pending) (nonempty s.commit_pending_at)
        (λ at. is_recent x at timeout t.now) (nonempty s.selected_seller)
        (λ seller. timeout_event k seller t) h
