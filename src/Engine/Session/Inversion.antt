-- ===== src/Engine/Session/Inversion.antt =====
-- What an accepted event says of the session before and after it, one lemma for each handler.
use ghost_bazaar.Prelude.{
  String, ◌===◌, ===_iff, ◌≡◌, sym, ap, Bool, true, [], ◌∷◌, ◌++◌, Option, none, some, suc, ok,
  or_throw, >>=-eq-ok, require-eq-ok, find, any, if◌then◌else◌,
}
use ghost_bazaar.Prelude.Json.{get, as_object}
use ghost_bazaar.Engine.Types.{SessionState, NegotiationEvent}
use ghost_bazaar.Engine.StateMachine.{is_valid_transition}
use ghost_bazaar.Engine.Session.{
  RecordedOffer, RecordedCounter, DerivedSession, get_str, bump, is_selected, has_seller,
  has_offer_id, or_else, read_offer, read_counter, on_offer, on_counter, on_winner, on_rollback,
  on_quote_signed, on_quote_committed, handle, apply_event, open_session, initial, is_rfq_created,
  SessionRfq, read_rfq,
}

pub or_throw-eq-ok {ℓ κ} :
    {E : Type ℓ} {A : Type κ} (o : Option A) (e : E) {a : A} → or_throw o e ≡ ok a → o ≡ some a
or_throw-eq-ok none e h = absurd (cc)
or_throw-eq-ok (some a) e h = cc

pub is_selected-eq_some : (s : String) (o : Option String) → is_selected s o ≡ true → o ≡ some s
is_selected-eq_some s none h = absurd (cc)
is_selected-eq_some s (some t) h = ap some (sym ((===_iff s t).0 h))

-- The session that an event is handled on.
abbrev pub entered : NegotiationEvent → DerivedSession → SessionState → DerivedSession
entered e s next = record s { last_event_id = e.event_id; state = next }

pub apply_event-eq_ok :
    (e : NegotiationEvent) (s t : DerivedSession)
    → apply_event e s ≡ ok t
    → (next : SessionState) × (is_valid_transition s.state e.type ≡ some next)
      × (handle e.type e (entered e s next) ≡ ok t)
unfolding apply_event
apply_event-eq_ok e s t h =
    let (next, valid, handled) = >>=-eq-ok (or_throw (is_valid_transition s.state e.type) _) _ h in
    (next, or_throw-eq-ok _ _ valid, handled)

pub on_offer-eq_ok :
    (e : NegotiationEvent) (s t : DerivedSession)
    → on_offer e s ≡ ok t
    → (o : RecordedOffer) × (read_offer e.payload ≡ ok o)
      × (e.actor ≡ o.seller)
      × (t ≡ record s {
        offers = s.offers ++ o ∷ [];
        total_offer_count = suc s.total_offer_count;
        offer_count_by_seller = bump o.seller s.offer_count_by_seller;
      })
unfolding on_offer
on_offer-eq_ok e s t h =
    let (o, found, more) = >>=-eq-ok (read_offer e.payload) _ h in
    let (actor, done) = require-eq-ok (e.actor === o.seller) _ _ more in
    (o, found, (===_iff _ _).0 actor, cc)

pub on_counter-eq_ok :
    (e : NegotiationEvent) (s t : DerivedSession)
    → on_counter e s ≡ ok t
    → (c : RecordedCounter) × (read_counter e.payload ≡ ok c)
      × (e.actor ≡ c.from)
      × (c.from ≡ s.rfq.buyer)
      × (any (has_seller c.to) s.offers ≡ true)
      × (t ≡ record s { counters = s.counters ++ c ∷ [] })
unfolding on_counter
on_counter-eq_ok e s t h =
    let (c, found, more) = >>=-eq-ok (read_counter e.payload) _ h in
    let (actor, rest) = require-eq-ok (e.actor === c.from) _ _ more in
    let (buyer, last) = require-eq-ok (c.from === s.rfq.buyer) _ _ rest in
    let (offered, done) = require-eq-ok (any (has_seller c.to) s.offers) _ _ last in
    (c, found, (===_iff _ _).0 actor, (===_iff _ _).0 buyer, offered, cc)

pub on_winner-eq_ok :
    (e : NegotiationEvent) (s t : DerivedSession)
    → on_winner e s ≡ ok t
    → (seller offer_id : String) × (o : RecordedOffer) × (e.actor ≡ s.rfq.buyer)
      × (find (has_offer_id offer_id) s.offers ≡ some o)
      × (o.seller ≡ seller)
      × (t ≡ record s {
        selected_seller = some seller;
        selected_offer_id = some offer_id;
        quote_revision = suc s.quote_revision;
        total_accept_attempts = suc s.total_accept_attempts;
        accept_attempts_by_seller = bump seller s.accept_attempts_by_seller;
        unsigned_quote = or_else (as_object (get e.payload "quote")) s.unsigned_quote;
        commit_pending_at = some e.timestamp;
        buyer_signature = none;
        seller_signature = none;
      })
unfolding on_winner
on_winner-eq_ok e s t h =
    let (seller, _, after) = >>=-eq-ok (get_str e.payload "seller") _ h in
    let (offer_id, _, later) = >>=-eq-ok (get_str e.payload "offer_id") _ after in
    let (buyer, rest) = require-eq-ok (e.actor === s.rfq.buyer) _ _ later in
    let (o, found, last) = >>=-eq-ok (or_throw (find (has_offer_id offer_id) s.offers) _) _ rest in
    let (owner, done) = require-eq-ok (o.seller === seller) _ _ last in
    (
      seller,
      offer_id,
      o,
      (===_iff _ _).0 buyer,
      or_throw-eq-ok _ _ found,
      (===_iff _ _).0 owner,
      cc,
    )

pub on_rollback-eq_ok :
    (checked : Bool) (e : NegotiationEvent) (s t : DerivedSession)
    → on_rollback checked e s ≡ ok t
    → (seller : String) × (s.selected_seller ≡ some seller)
      × (checked ≡ true → s.selected_seller ≡ some e.actor)
      × (t ≡ record s {
        selected_seller = none;
        selected_offer_id = none;
        unsigned_quote = none;
        buyer_signature = none;
        seller_signature = none;
        commit_pending_at = none;
      })
unfolding on_rollback
on_rollback-eq_ok checked e s t h =
    let (seller, _, after) = >>=-eq-ok (get_str e.payload "seller") _ h in
    let (selected, rest) = require-eq-ok (is_selected seller s.selected_seller) _ _ after in
    let (actor, done) =
      require-eq-ok (if checked then is_selected e.actor s.selected_seller else true) _ _ rest in
    (seller, is_selected-eq_some _ _ selected, (λ c. is_selected-eq_some _ _ (rw c at actor)), cc)

pub on_quote_signed-eq_ok :
    (e : NegotiationEvent) (s t : DerivedSession)
    → on_quote_signed e s ≡ ok t
    → (seller signature : String) × (s.selected_seller ≡ some seller)
      × (e.actor ≡ s.rfq.buyer)
      × (t ≡ record s { buyer_signature = some signature })
unfolding on_quote_signed
on_quote_signed-eq_ok e s t h =
    let (seller, _, after) = >>=-eq-ok (get_str e.payload "seller") _ h in
    let (selected, rest) = require-eq-ok (is_selected seller s.selected_seller) _ _ after in
    let (buyer, last) = require-eq-ok (e.actor === s.rfq.buyer) _ _ rest in
    let (signature, _, done) = >>=-eq-ok (get_str e.payload "buyer_signature") _ last in
    (seller, signature, is_selected-eq_some _ _ selected, (===_iff _ _).0 buyer, cc)

pub on_quote_committed-eq_ok :
    (e : NegotiationEvent) (s t : DerivedSession)
    → on_quote_committed e s ≡ ok t
    → (signature : String) × (s.selected_seller ≡ some e.actor)
      × (t ≡ record s { seller_signature = some signature })
unfolding on_quote_committed
on_quote_committed-eq_ok e s t h =
    let (seller, _, after) = >>=-eq-ok (get_str e.payload "seller") _ h in
    let (selected, rest) = require-eq-ok (is_selected seller s.selected_seller) _ _ after in
    let (actor, last) = require-eq-ok (is_selected e.actor s.selected_seller) _ _ rest in
    let (signature, _, done) = >>=-eq-ok (get_str e.payload "seller_signature") _ last in
    (signature, is_selected-eq_some _ _ actor, cc)

pub open_session-eq_ok :
    (first : NegotiationEvent) (s : DerivedSession)
    → open_session first ≡ ok s
    → (rfq : SessionRfq) × (read_rfq first.payload ≡ ok rfq) × (s ≡ initial rfq first.event_id)
unfolding open_session
open_session-eq_ok first s h =
    let (created, rest) = require-eq-ok (is_rfq_created first.type) _ _ h in
    let (rfq, read, done) = >>=-eq-ok (read_rfq first.payload) _ rest in (rfq, read, cc)
