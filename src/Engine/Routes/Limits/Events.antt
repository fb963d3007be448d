-- ===== src/Engine/Routes/Limits/Events.antt =====
-- What the events of the routes do to the tallies of a session.
use ghost_bazaar.Prelude.{
  suc, String, ◌===◌, ◌≡◌, sym, ap, ◌∙◌, subst, Bool, true, false, [], ◌∷◌, ◌++◌, ok,
}
use ghost_bazaar.Prelude.Json.{Payload, get}
use ghost_bazaar.Engine.Types.{
  NegotiationEvent, EventType, offer_submitted, counter_sent, winner_selected, quote_signed,
  quote_committed, cosign_declined, cosign_timeout,
}
use ghost_bazaar.Engine.Session.{
  DerivedSession, RecordedOffer, RecordedCounter, Derived, handle, apply_event, on_offer,
  on_counter, read_offer, read_counter, bump,
}
use ghost_bazaar.Engine.Session.Inversion.{
  entered, apply_event-eq_ok, on_offer-eq_ok, on_counter-eq_ok, on_rollback-eq_ok,
  on_quote_signed-eq_ok, on_quote_committed-eq_ok,
}
use ghost_bazaar.Engine.Http.{Moment, text_of}
use ghost_bazaar.Engine.Routes.Offers.{Listing, offer_event}
use ghost_bazaar.Engine.Routes.Counters.{counter_event, round_of}
use ghost_bazaar.Engine.Routes.Limits.{IsWithinLimits}

-- The events that are counted.
abbrev is_tallied : EventType → Bool
is_tallied offer_submitted = true
is_tallied counter_sent = true
is_tallied winner_selected = true
is_tallied _ = false

-- The other events leave the tallies as they are.
untallied-IsWithinLimits :
    (type : EventType) (e : NegotiationEvent) (s t : DerivedSession)
    → handle type e s ≡ ok t
    → is_tallied type ≡ false
    → IsWithinLimits s
    → IsWithinLimits t
unfolding handle
untallied-IsWithinLimits cosign_declined e s t h u w =
    let (_, _, _, same) = on_rollback-eq_ok true e s t h in subst IsWithinLimits (sym same) w
untallied-IsWithinLimits cosign_timeout e s t h u w =
    let (_, _, _, same) = on_rollback-eq_ok false e s t h in subst IsWithinLimits (sym same) w
untallied-IsWithinLimits quote_signed e s t h u w =
    let (_, _, _, _, same) = on_quote_signed-eq_ok e s t h in subst IsWithinLimits (sym same) w
untallied-IsWithinLimits quote_committed e s t h u w =
    let (_, _, same) = on_quote_committed-eq_ok e s t h in subst IsWithinLimits (sym same) w
untallied-IsWithinLimits offer_submitted e s t h u w = absurd (cc)
untallied-IsWithinLimits counter_sent e s t h u w = absurd (cc)
untallied-IsWithinLimits winner_selected e s t h u w = absurd (cc)
untallied-IsWithinLimits _ e s t h u w = let same : t ≡ s = cc in subst IsWithinLimits (sym same) w

pub untallied_step :
    (type : EventType) (e : NegotiationEvent) (s t : DerivedSession)
    → e.type ≡ type
    → is_tallied type ≡ false
    → apply_event e s ≡ ok t
    → IsWithinLimits s
    → IsWithinLimits t
untallied_step type e s t at u h w =
    let (next, _, handled) = apply_event-eq_ok e s t h in
    untallied-IsWithinLimits e.type e (entered e s next) t handled (ap is_tallied at ∙ u) w

derived-same : {A : Type 0} {a b : A} → ◌≡◌ {A = Derived A} (ok a) (ok b) → a ≡ b
derived-same p = cc

-- The reducer on the event of an admitted offer, and of a counter-offer.
pub offer_of_event :
    (k : String) (body : Payload) (listing : Listing) (m : Moment) (s t : DerivedSession)
    → on_offer (offer_event k body listing m) s ≡ ok t
    → (o : RecordedOffer) × (o.offer_id ≡ text_of body "offer_id")
      × (o.seller ≡ text_of body "seller")
      × (t ≡ record s {
        offers = s.offers ++ o ∷ [];
        total_offer_count = suc s.total_offer_count;
        offer_count_by_seller = bump o.seller s.offer_count_by_seller;
      })
unfolding read_offer get ◌===◌
offer_of_event k body listing m s t h =
    let (o, read, _, same) = on_offer-eq_ok (offer_event k body listing m) s t h in
    (
      o,
      sym (ap (λ r. r.offer_id) (derived-same read)),
      sym (ap (λ r. r.seller) (derived-same read)),
      same,
    )

pub counter_of_event :
    (k : String) (body : Payload) (m : Moment) (s t : DerivedSession)
    → on_counter (counter_event k body m) s ≡ ok t
    → (c : RecordedCounter) × (c.round ≡ round_of body)
      × (t ≡ record s { counters = s.counters ++ c ∷ [] })
unfolding read_counter get ◌===◌
counter_of_event k body m s t h =
    let (c, read, _, _, _, same) = on_counter-eq_ok (counter_event k body m) s t h in
    (c, sym (ap (λ r. r.round) (derived-same read)), same)
