-- ===== src/Engine/Session/Invariant/Tally.antt =====
-- packages/engine/src/state/session.ts: what a log holds of offers, counter-offers and accepts, and
-- what the session that it derives says of them.
use ghost_bazaar.Prelude.{
  ℕ, suc, ◌+◌, String, ◌===◌, ===_iff, ◌≡◌, refl, subst, Bool, true, false, ◌&&◌, List, [], ◌∷◌,
  some, ok, err, inl, inr, length, length-append, count, arith, Result-cases, >>=-eq-ok,
  require-eq-ok, or_throw, find, if◌then◌else◌,
}
use ghost_bazaar.Prelude.Dict.{Dict, lookup, lookup-insert}
use ghost_bazaar.Engine.Types.{
  EventType, NegotiationEvent, rfq_created, offer_submitted, counter_sent, winner_selected,
  quote_signed, quote_committed, cosign_declined, cosign_timeout,
}
use ghost_bazaar.Engine.Session.{
  DerivedSession, has_offer_id, get_str, opt_str, is_selected, or_zero, bump, handle, on_winner,
  apply_event, replay, open_session, initial, is_rfq_created, derive_state,
}
use ghost_bazaar.Engine.Session.Inversion.{
  entered, apply_event-eq_ok, on_offer-eq_ok, on_counter-eq_ok, on_winner-eq_ok, on_rollback-eq_ok,
  on_quote_signed-eq_ok, on_quote_committed-eq_ok, open_session-eq_ok, or_throw-eq-ok,
}
use ghost_bazaar.Engine.Session.Replay.{derive_state-eq_ok}

abbrev is_offer_type : EventType → Bool
is_offer_type offer_submitted = true
is_offer_type _ = false

abbrev is_counter_type : EventType → Bool
is_counter_type counter_sent = true
is_counter_type _ = false

abbrev is_accept_type : EventType → Bool
is_accept_type winner_selected = true
is_accept_type _ = false

-- The events that record an offer, a counter-offer, an accept, and an accept of one seller.
abbrev pub is_offer : NegotiationEvent → Bool
is_offer e = is_offer_type e.type

abbrev pub is_counter : NegotiationEvent → Bool
is_counter e = is_counter_type e.type

abbrev pub is_accept : NegotiationEvent → Bool
is_accept e = is_accept_type e.type

abbrev pub is_accept_of : String → NegotiationEvent → Bool
is_accept_of seller e = is_accept_type e.type && is_selected seller (opt_str e.payload "seller")

abbrev one_if : Bool → ℕ
one_if true = 1
one_if false = 0

pub lookup-bump :
    (k j : String) (m : Dict ℕ)
    → or_zero (lookup j (bump k m))
      ≡ (if k === j then suc (or_zero (lookup j m)) else or_zero (lookup j m))
lookup-bump k j m = ground (arith, lookup-insert k j (suc (or_zero (lookup k m))) m, ===_iff k j)

-- The totals of one session exceed those of another by these numbers.
record Exceeds (offers counters accepts : ℕ) (accepts_of : String → ℕ) (s t : DerivedSession)
    : Type 0 where
  offers_more : length t.offers ≡ length s.offers + offers
  counters_more : length t.counters ≡ length s.counters + counters
  revisions_more : t.quote_revision ≡ s.quote_revision + accepts
  accepts_more : t.total_accept_attempts ≡ s.total_accept_attempts + accepts
  each_more :
      (seller : String)
      → or_zero (lookup seller t.accept_attempts_by_seller)
        ≡ or_zero (lookup seller s.accept_attempts_by_seller) + accepts_of seller

-- An event adds what it records.
abbrev Adds : EventType → NegotiationEvent → DerivedSession → DerivedSession → Type 0
Adds type e =
    Exceeds (one_if (is_offer_type type)) (one_if (is_counter_type type))
      (one_if (is_accept_type type))
      (λ j. one_if (is_accept_type type && is_selected j (opt_str e.payload "seller")))

unchanged-Exceeds :
    (s t : DerivedSession)
    → t.offers ≡ s.offers
    → t.counters ≡ s.counters
    → t.quote_revision ≡ s.quote_revision
    → t.total_accept_attempts ≡ s.total_accept_attempts
    → t.accept_attempts_by_seller ≡ s.accept_attempts_by_seller
    → Exceeds 0 0 0 (λ j. 0) s t
unchanged-Exceeds s t o c r a m = record {
  offers_more = rw o (omega arith);
  counters_more = rw c (omega arith);
  revisions_more = rw r (omega arith);
  accepts_more = rw a (omega arith);
  each_more = λ j. rw m (omega arith);
}

winner_named :
    (e : NegotiationEvent) (s t : DerivedSession)
    → on_winner e s ≡ ok t
    → (seller : String) × (opt_str e.payload "seller" ≡ some seller)
      × (t.accept_attempts_by_seller ≡ bump seller s.accept_attempts_by_seller)
unfolding on_winner
winner_named e s t h =
    let (seller, named, after) = >>=-eq-ok (get_str e.payload "seller") _ h in
    let (offer_id, _, later) = >>=-eq-ok (get_str e.payload "offer_id") _ after in
    let (_, rest) = require-eq-ok (e.actor === s.rfq.buyer) _ _ later in
    let (o, _, last) = >>=-eq-ok (or_throw (find (has_offer_id offer_id) s.offers) _) _ rest in
    let (_, done) = require-eq-ok (o.seller === seller) _ _ last in
    (seller, or_throw-eq-ok _ _ named, cc)

winner-Adds :
    (e : NegotiationEvent) (s t : DerivedSession)
    → on_winner e s ≡ ok t
    → Adds winner_selected e s t
winner-Adds e s t h =
    let (_, _, _, _, _, _, same) = on_winner-eq_ok e s t h in
    let (seller, named, bumped) = winner_named e s t h in
    record {
      offers_more = rw same (omega arith);
      counters_more = rw same (omega arith);
      revisions_more = rw same (omega arith);
      accepts_more = rw same (omega arith);
      each_more = λ j.
          rw (bumped, lookup-bump seller j s.accept_attempts_by_seller, named)
            (ground (arith, ===_iff seller j, ===_iff j seller));
    }

handle-Adds :
    (type : EventType) (e : NegotiationEvent) (s t : DerivedSession)
    → handle type e s ≡ ok t
    → Adds type e s t
unfolding handle
handle-Adds offer_submitted e s t h =
    let (o, _, _, same) = on_offer-eq_ok e s t h in
    rw same (record {
      offers_more = omega (arith, length-append s.offers (o ∷ []));
      counters_more = omega arith;
      revisions_more = omega arith;
      accepts_more = omega arith;
      each_more = λ j. omega arith;
    })
handle-Adds counter_sent e s t h =
    let (c, _, _, _, _, same) = on_counter-eq_ok e s t h in
    rw same (record {
      offers_more = omega arith;
      counters_more = omega (arith, length-append s.counters (c ∷ []));
      revisions_more = omega arith;
      accepts_more = omega arith;
      each_more = λ j. omega arith;
    })
handle-Adds winner_selected e s t h = winner-Adds e s t h
handle-Adds cosign_declined e s t h =
    let (_, _, _, same) = on_rollback-eq_ok true e s t h in
    rw same (unchanged-Exceeds s _ refl refl refl refl refl)
handle-Adds cosign_timeout e s t h =
    let (_, _, _, same) = on_rollback-eq_ok false e s t h in
    rw same (unchanged-Exceeds s _ refl refl refl refl refl)
handle-Adds quote_signed e s t h =
    let (_, _, _, _, same) = on_quote_signed-eq_ok e s t h in
    rw same (unchanged-Exceeds s _ refl refl refl refl refl)
handle-Adds quote_committed e s t h =
    let (_, _, same) = on_quote_committed-eq_ok e s t h in
    rw same (unchanged-Exceeds s _ refl refl refl refl refl)
handle-Adds _ e s t h =
    subst (Exceeds 0 0 0 (λ j. 0) s) (cc) (unchanged-Exceeds s s refl refl refl refl refl)

apply_event-Adds :
    (e : NegotiationEvent) (s t : DerivedSession) → apply_event e s ≡ ok t → Adds e.type e s t
apply_event-Adds e s t h =
    let (next, _, handled) = apply_event-eq_ok e s t h in
    let a = handle-Adds e.type e (entered e s next) t handled in
    record {
      offers_more = a.offers_more;
      counters_more = a.counters_more;
      revisions_more = a.revisions_more;
      accepts_more = a.accepts_more;
      each_more = a.each_more;
    }

replay-Exceeds :
    (es : List NegotiationEvent) (s t : DerivedSession)
    → replay s es ≡ ok t
    → Exceeds
        (count is_offer es)
        (count is_counter es)
        (count is_accept es)
        (λ j. count (is_accept_of j) es)
        s
        t
unfolding replay count
replay-Exceeds [] s t h =
    subst (Exceeds 0 0 0 (λ j. 0) s) (cc) (unchanged-Exceeds s s refl refl refl refl refl)
replay-Exceeds (e ∷ es) s t h = elim (Result-cases (apply_event e s)) [
  | inr (x, q) ↦ absurd (let bad : err x ≡ ok t = rw (q, replay) at h in cc)
  | inl (u, q) ↦
      let a = apply_event-Adds e s u q in
      let more = replay-Exceeds es u t (rw (q, replay) at h) in
      record {
        offers_more = ground (arith, a.offers_more, more.offers_more);
        counters_more = ground (arith, a.counters_more, more.counters_more);
        revisions_more = ground (arith, a.revisions_more, more.revisions_more);
        accepts_more = ground (arith, a.accepts_more, more.accepts_more);
        each_more = λ j. ground (arith, a.each_more j, more.each_more j);
      }
]

-- The totals of a session are the numbers of events in its log.
pub record IsTallied (es : List NegotiationEvent) (s : DerivedSession) : Type 0 where
  pub offers_tallied : length s.offers ≡ count is_offer es
  pub counters_tallied : length s.counters ≡ count is_counter es
  pub revisions_tallied : s.quote_revision ≡ count is_accept es
  pub accepts_tallied : s.total_accept_attempts ≡ count is_accept es
  pub each_tallied :
      (seller : String)
      → or_zero (lookup seller s.accept_attempts_by_seller) ≡ count (is_accept_of seller) es

-- The event that opens a session counts for nothing.
opens-counts_nothing :
    (type : EventType)
    → is_rfq_created type ≡ true
    → (is_offer_type type ≡ false) × (is_counter_type type ≡ false) × (is_accept_type type ≡ false)
opens-counts_nothing rfq_created h = (refl, refl, refl)
opens-counts_nothing _ h = absurd (cc)

pub derive_state-IsTallied :
    (es : List NegotiationEvent) (s : DerivedSession)
    → derive_state es ≡ ok (some s)
    → IsTallied es s
unfolding derive_state open_session initial lookup count
derive_state-IsTallied [] s h = absurd (cc)
derive_state-IsTallied (first ∷ rest) s h =
    let (s₀, opens, replayed) = derive_state-eq_ok first rest s h in
    let (rfq, _, same) = open_session-eq_ok first s₀ opens in
    let (created, _) = require-eq-ok (is_rfq_created first.type) _ _ opens in
    let (no_offer, no_counter, no_accept) = opens-counts_nothing first.type created in
    let more = replay-Exceeds rest (initial rfq first.event_id) s (rw same at replayed) in
    record {
      offers_tallied = rw no_offer (omega (arith, more.offers_more));
      counters_tallied = rw no_counter (omega (arith, more.counters_more));
      revisions_tallied = rw no_accept (omega (arith, more.revisions_more));
      accepts_tallied = rw no_accept (omega (arith, more.accepts_more));
      each_tallied = λ j. rw no_accept (omega (arith, more.each_more j));
    }
