-- ===== src/Engine/Routes/Limits/Kept.antt =====
-- Every step keeps the limits.
use ghost_bazaar.Prelude.{
  ℕ, ◌≤◌, ltb, length, count, String, ◌≡◌, refl, sym, ap, subst, arith, true, false, Option, any,
  ok, some, List,
}
use ghost_bazaar.Prelude.Dict.{Dict, lookup}
use ghost_bazaar.Prelude.Json.{Payload}
use ghost_bazaar.Core.External.{Externals}
use ghost_bazaar.Engine.Types.{
  negotiating, commit_pending, NegotiationEvent, quote_signed, quote_committed, cosign_declined,
  cosign_timeout, negotiation_expired, settlement_confirmed,
}
use ghost_bazaar.Engine.StateMachine.Targets.{offer_leads, counter_leads, accept_leads}
use ghost_bazaar.Engine.Session.{
  DerivedSession, handle, apply_event, initial, or_zero, has_offer_id, has_seller, derive_state,
}
use ghost_bazaar.Engine.Session.Inversion.{entered, open_session-eq_ok}
use ghost_bazaar.Engine.Session.Invariant.Tally.{is_offer, is_accept, is_accept_of}
use ghost_bazaar.Engine.Session.Invariant.Counting.{derive_state-IsCounted}
use ghost_bazaar.Engine.Http.{Moment}
use ghost_bazaar.Engine.Routes.Offers.{
  Listing, offer_event, decide_offer, max_offers_per_session, max_offers_per_seller,
}
use ghost_bazaar.Engine.Routes.Counters.{counter_event, decide_counter, max_round}
use ghost_bazaar.Engine.Routes.Accept.{
  QuoteIds, accept_event, decide_accept, quote_fields, hash_of, max_accepts_per_session,
  max_accepts_per_seller,
}
use ghost_bazaar.Engine.Routes.Commitment.Decisions.{
  winner_of_accept, decide_accept-eq_ok, decide_quote_sign-eq_ok, decide_cosign-eq_ok,
}
use ghost_bazaar.Engine.Routes.Commitment.Transitions.{next_state}
use ghost_bazaar.Engine.Routes.Steps.Decisions.{
  decide_offer-eq_ok, decide_counter-eq_ok, decide_decline-eq_ok, decide_expire-eq_some,
  decide_timeout-eq_some,
}
use ghost_bazaar.Engine.Routes.Steps.{
  Decided, by_offer, by_counter, by_accept, by_quote_sign, by_cosign, by_decline, by_expiry,
  by_timeout, Reachable, opened, stepped, paid,
}
use ghost_bazaar.Engine.Routes.Limits.{
  IsWithinLimits, HasDistinctIds, IsRising, HasDistinctIds-snoc, IsRising-snoc, bump-bounded,
}
use ghost_bazaar.Engine.Routes.Limits.Events.{untallied_step, offer_of_event, counter_of_event}

module _ (x : Externals) where
  offer-IsWithinLimits :
      (k : String) (body : Payload) (listings : Dict Listing) (m : Moment) (s t : DerivedSession)
      (e : NegotiationEvent)
      → decide_offer x k body listings m s ≡ ok e
      → apply_event e s ≡ ok t
      → IsWithinLimits s
      → IsWithinLimits t
  unfolding handle
  offer-IsWithinLimits k body listings m s t e d h w =
      let (listing, new, total, each, _, event) = decide_offer-eq_ok x k body listings m s e d in
      let f : NegotiationEvent = offer_event k body listing m in
      let (_, handled) =
        next_state f s t negotiating offer_leads (subst (λ g. apply_event g s ≡ ok t) event h) in
      let (o, id, seller, same) =
        offer_of_event k body listing m (entered f s negotiating) t handled in
      subst IsWithinLimits (sym same) (record {
        offers_total = ground (arith, total);
        offers_each =
            bump-bounded max_offers_per_seller o.seller s.offer_count_by_seller
              (subst
                (λ i. ltb (or_zero (lookup i s.offer_count_by_seller)) max_offers_per_seller ≡ true)
                (sym seller) each)
              w.offers_each;
        accepts_total = w.accepts_total;
        accepts_each = w.accepts_each;
        ids_distinct =
            HasDistinctIds-snoc s.offers o w.ids_distinct
              (subst (λ i. any (has_offer_id i) s.offers ≡ false) (sym id) new);
        rounds_rise = w.rounds_rise;
      })

  counter-IsWithinLimits :
      (k : String) (body : Payload) (m : Moment) (s t : DerivedSession) (e : NegotiationEvent)
      → decide_counter x k body m s ≡ ok e
      → apply_event e s ≡ ok t
      → IsWithinLimits s
      → IsWithinLimits t
  unfolding handle
  counter-IsWithinLimits k body m s t e d h w =
      let (_, higher, event) = decide_counter-eq_ok x k body m s e d in
      let f : NegotiationEvent = counter_event k body m in
      let (_, handled) =
        next_state f s t negotiating counter_leads (subst (λ g. apply_event g s ≡ ok t) event h) in
      let (c, round, same) = counter_of_event k body m (entered f s negotiating) t handled in
      subst IsWithinLimits (sym same) (record {
        offers_total = w.offers_total;
        offers_each = w.offers_each;
        accepts_total = w.accepts_total;
        accepts_each = w.accepts_each;
        ids_distinct = w.ids_distinct;
        rounds_rise =
            IsRising-snoc 0 s.counters c w.rounds_rise
              (subst (λ n. ltb (max_round 0 s.counters) n ≡ true) (sym round) higher);
      })

  accept-IsWithinLimits :
      (window : Option ℕ) (k seller offer_id revision : String) (ids : QuoteIds) (m : Moment)
      (s t : DerivedSession) (e : NegotiationEvent)
      → decide_accept x window k seller offer_id revision ids m s ≡ ok e
      → apply_event e s ≡ ok t
      → IsWithinLimits s
      → IsWithinLimits t
  unfolding handle
  accept-IsWithinLimits window k seller offer_id revision ids m s t e d h w =
      let (o, at, _, total, each, event) =
        decide_accept-eq_ok x window k seller offer_id revision ids m s e d in
      let q : Payload = quote_fields s.rfq o ids at (hash_of x s.rfq.spec) in
      let f : NegotiationEvent = accept_event k seller offer_id q m s in
      let (_, handled) =
        next_state f s t commit_pending accept_leads
          (subst (λ g. apply_event g s ≡ ok t) event h) in
      let (_, _, _, same) =
        winner_of_accept k seller offer_id q m s (entered f s commit_pending) t handled in
      subst IsWithinLimits (sym same) (record {
        offers_total = w.offers_total;
        offers_each = w.offers_each;
        accepts_total = ground (arith, total);
        accepts_each =
            bump-bounded max_accepts_per_seller seller s.accept_attempts_by_seller each
              w.accepts_each;
        ids_distinct = w.ids_distinct;
        rounds_rise = w.rounds_rise;
      })

  pub step-IsWithinLimits :
      (s t : DerivedSession) (e : NegotiationEvent)
      → Decided x s e
      → apply_event e s ≡ ok t
      → IsWithinLimits s
      → IsWithinLimits t
  step-IsWithinLimits s t e (by_offer k body listings m d) h w =
      offer-IsWithinLimits k body listings m s t e d h w
  step-IsWithinLimits s t e (by_counter k body m d) h w =
      counter-IsWithinLimits k body m s t e d h w
  step-IsWithinLimits s t e (by_accept window k seller offer_id revision ids m d) h w =
      accept-IsWithinLimits window k seller offer_id revision ids m s t e d h w
  step-IsWithinLimits s t e (by_quote_sign k signature m d) h w =
      let (_, _, _, event) = decide_quote_sign-eq_ok x k signature m s e d in
      untallied_step quote_signed e s t (ap (λ f. f.type) event) refl h w
  step-IsWithinLimits s t e (by_cosign k signature m d) h w =
      let (_, _, _, _, _, _, event) = decide_cosign-eq_ok x k signature m s e d in
      untallied_step quote_committed e s t (ap (λ f. f.type) event) refl h w
  step-IsWithinLimits s t e (by_decline k signer revision m d) h w =
      let (_, _, _, _, event) = decide_decline-eq_ok x k signer revision m s e d in
      untallied_step cosign_declined e s t (ap (λ f. f.type) event) refl h w
  step-IsWithinLimits s t e (by_expiry k m d) h w =
      let event = decide_expire-eq_some x k m s e d in
      untallied_step negotiation_expired e s t (ap (λ f. f.type) event) refl h w
  step-IsWithinLimits s t e (by_timeout timeout k m d) h w =
      let (_, event) = decide_timeout-eq_some x timeout k m s e d in
      untallied_step cosign_timeout e s t (ap (λ f. f.type) event) refl h w

  pub Reachable-IsWithinLimits : (s : DerivedSession) → Reachable x s → IsWithinLimits s
  unfolding initial lookup
  Reachable-IsWithinLimits _ (opened first s h) =
      let (rfq, _, same) = open_session-eq_ok first s h in
      subst IsWithinLimits (sym same) (record {
        offers_total = omega arith;
        offers_each = λ seller. omega arith;
        accepts_total = omega arith;
        accepts_each = λ seller. omega arith;
        ids_distinct = tt;
        rounds_rise = tt;
      })
  Reachable-IsWithinLimits _ (stepped s t e r d h) =
      step-IsWithinLimits s t e d h (Reachable-IsWithinLimits s r)
  Reachable-IsWithinLimits _ (paid s t e r type h) =
      untallied_step settlement_confirmed e s t type refl h (Reachable-IsWithinLimits s r)

  -- In the log of a session that the routes reach, at most 50 events are offers and at most 6 are
  -- accepts, at most 2 accepts of each seller; the session records at most 5 offers of each
  -- seller, uses no offer id twice, and its counter-offers have rising rounds.
  pub limits_are_kept :
      (es : List NegotiationEvent) (s : DerivedSession)
      → derive_state es ≡ ok (some s)
      → Reachable x s
      → (count is_offer es ≤ max_offers_per_session)
        × (count is_accept es ≤ max_accepts_per_session)
        × ((seller : String) → count (is_accept_of seller) es ≤ max_accepts_per_seller)
        × (length s.offers ≤ max_offers_per_session)
        × ((seller : String) → count (has_seller seller) s.offers ≤ max_offers_per_seller)
        × HasDistinctIds s.offers
        × IsRising 0 s.counters
  limits_are_kept es s h r =
      let w = Reachable-IsWithinLimits s r in
      let (t, c) = derive_state-IsCounted es s h in
      (
        omega (arith, w.offers_total, c.offers_counted, t.offers_tallied),
        omega (arith, w.accepts_total, t.accepts_tallied),
        (λ seller. omega (arith, w.accepts_each seller, t.each_tallied seller)),
        omega (arith, w.offers_total, c.offers_counted),
        (λ seller. omega (arith, w.offers_each seller, c.offers_by_seller seller)),
        w.ids_distinct,
        w.rounds_rise,
      )
