-- ===== src/Engine/Session/Invariant/Counting.antt =====
-- The running totals of a session agree with what its log recorded.
use ghost_bazaar.Prelude.{
  suc, ◌≡◌, refl, subst, ap, List, [], ◌∷◌, ◌++◌, some, arith, length-append, count, count-append,
  any, any-append, All-append, All-map, true, false, ok,
}
use ghost_bazaar.Prelude.Dict.{lookup}
use ghost_bazaar.Engine.Types.{
  EventType, NegotiationEvent, offer_submitted, counter_sent, winner_selected, quote_signed,
  quote_committed, cosign_declined, cosign_timeout,
}
use ghost_bazaar.Engine.Session.{
  DerivedSession, RecordedOffer, RecordedCounter, bump, has_seller, handle, apply_event,
  open_session, initial, derive_state,
}
use ghost_bazaar.Engine.Session.Inversion.{
  entered, apply_event-eq_ok, on_offer-eq_ok, on_counter-eq_ok, on_winner-eq_ok, on_rollback-eq_ok,
  on_quote_signed-eq_ok, on_quote_committed-eq_ok, open_session-eq_ok,
}
use ghost_bazaar.Engine.Session.Replay.{derive_state_ind}
use ghost_bazaar.Engine.Session.Invariant.Tally.{lookup-bump, IsTallied, derive_state-IsTallied}
use ghost_bazaar.Engine.Session.Invariant.{IsCounted, IsAllowedCounter}

offer-IsCounted :
    (o : RecordedOffer) (s : DerivedSession)
    → IsCounted s
    → IsCounted (record s {
      offers = s.offers ++ o ∷ [];
      total_offer_count = suc s.total_offer_count;
      offer_count_by_seller = bump o.seller s.offer_count_by_seller;
    })
unfolding count any
offer-IsCounted o s v = record {
  offers_counted = omega (arith, v.offers_counted, length-append s.offers (o ∷ []));
  accepts_counted = v.accepts_counted;
  offers_by_seller = λ seller. ground (
    arith,
    v.offers_by_seller seller,
    lookup-bump o.seller seller s.offer_count_by_seller,
    count-append (has_seller seller) s.offers (o ∷ []),
  );
  counters_allowed =
      All-map (IsAllowedCounter s) _ s.counters
        (λ c h. (h.0, ground (arith, h.1, any-append (has_seller c.to) s.offers (o ∷ []))))
        v.counters_allowed;
}

counter-IsCounted :
    (c : RecordedCounter) (s : DerivedSession)
    → IsAllowedCounter s c
    → IsCounted s
    → IsCounted (record s { counters = s.counters ++ c ∷ [] })
counter-IsCounted c s h v = record {
  offers_counted = v.offers_counted;
  accepts_counted = v.accepts_counted;
  offers_by_seller = v.offers_by_seller;
  counters_allowed = All-append (IsAllowedCounter s) s.counters (c ∷ []) v.counters_allowed (h, tt);
}

-- Where the counted fields stay, so does the invariant.
unchanged-IsCounted :
    (s t : DerivedSession)
    → t.rfq ≡ s.rfq
    → t.offers ≡ s.offers
    → t.counters ≡ s.counters
    → t.total_offer_count ≡ s.total_offer_count
    → t.offer_count_by_seller ≡ s.offer_count_by_seller
    → t.total_accept_attempts ≡ t.quote_revision
    → IsCounted s
    → IsCounted t
unchanged-IsCounted s t r o c n m a v = record {
  offers_counted = rw (n, o) v.offers_counted;
  accepts_counted = a;
  offers_by_seller = rw (m, o) v.offers_by_seller;
  counters_allowed =
      rw c (All-map (IsAllowedCounter s) _ s.counters (λ k h. rw (r, o) h) v.counters_allowed);
}

handle-IsCounted :
    (type : EventType) (e : NegotiationEvent) (s t : DerivedSession)
    → handle type e s ≡ ok t
    → IsCounted s
    → IsCounted t
unfolding handle
handle-IsCounted offer_submitted e s t h v =
    let (o, _, _, same) = on_offer-eq_ok e s t h in rw same (offer-IsCounted o s v)
handle-IsCounted counter_sent e s t h v =
    let (c, _, _, buyer, offered, same) = on_counter-eq_ok e s t h in
    rw same (counter-IsCounted c s (buyer, offered) v)
handle-IsCounted winner_selected e s t h v =
    let (_, _, _, _, _, _, same) = on_winner-eq_ok e s t h in
    rw same (unchanged-IsCounted s _ refl refl refl refl refl (ap suc v.accepts_counted) v)
handle-IsCounted cosign_declined e s t h v =
    let (_, _, _, same) = on_rollback-eq_ok true e s t h in
    rw same (unchanged-IsCounted s _ refl refl refl refl refl v.accepts_counted v)
handle-IsCounted cosign_timeout e s t h v =
    let (_, _, _, same) = on_rollback-eq_ok false e s t h in
    rw same (unchanged-IsCounted s _ refl refl refl refl refl v.accepts_counted v)
handle-IsCounted quote_signed e s t h v =
    let (_, _, _, _, same) = on_quote_signed-eq_ok e s t h in
    rw same (unchanged-IsCounted s _ refl refl refl refl refl v.accepts_counted v)
handle-IsCounted quote_committed e s t h v =
    let (_, _, same) = on_quote_committed-eq_ok e s t h in
    rw same (unchanged-IsCounted s _ refl refl refl refl refl v.accepts_counted v)
handle-IsCounted _ e s t h v = subst IsCounted (cc) v

pub apply_event-IsCounted :
    (e : NegotiationEvent) (s t : DerivedSession)
    → apply_event e s ≡ ok t
    → IsCounted s
    → IsCounted t
apply_event-IsCounted e s t h v =
    let (next, _, handled) = apply_event-eq_ok e s t h in
    handle-IsCounted e.type e (entered e s next) t handled
      (unchanged-IsCounted s _ refl refl refl refl refl v.accepts_counted v)

pub opened-IsCounted :
    (first : NegotiationEvent) (s : DerivedSession) → open_session first ≡ ok s → IsCounted s
unfolding initial lookup count
opened-IsCounted first s h =
    let (rfq, _, same) = open_session-eq_ok first s h in
    rw same (record {
      offers_counted = refl;
      accepts_counted = refl;
      offers_by_seller = λ seller. refl;
      counters_allowed = tt;
    })

-- In every session that a log derives, the recorded offers and counter-offers and the counted
-- accepts, those of each seller too, are as many as the events of that kind in the log; the
-- running totals agree with what is recorded, and every counter-offer goes from the buyer to a
-- seller that has an offer.
pub derive_state-IsCounted :
    (es : List NegotiationEvent) (s : DerivedSession)
    → derive_state es ≡ ok (some s)
    → IsTallied es s × IsCounted s
derive_state-IsCounted es s h = (
  derive_state-IsTallied es s h,
  derive_state_ind IsCounted opened-IsCounted apply_event-IsCounted es s h,
)
