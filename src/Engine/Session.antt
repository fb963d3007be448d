-- ===== src/Engine/Session.antt =====
-- packages/engine/src/state/session.ts: the state of a session is a fold over its event log.
pub mod Replay
pub mod Final
pub mod Inversion
pub mod Invariant
use ghost_bazaar.Prelude.{
  ℕ, suc, String, ◌===◌, Bool, true, false, ◌&&◌, List, [], ◌∷◌, ◌++◌, Option, none, some, find,
  any, Result, ok, err, ◌>>=◌, ◌>>◌, require, or_throw, if◌then◌else◌,
}
use ghost_bazaar.Prelude.Json.{Value, Payload, get, num, as_string, as_object}
use ghost_bazaar.Prelude.Dict.{Dict, lookup, insert}
use ghost_bazaar.Engine.Types.{
  SessionState, open_state, EventType, NegotiationEvent, rfq_created, offer_submitted, counter_sent,
  winner_selected, commit_pending_event, quote_signed, quote_committed, cosign_declined,
  cosign_timeout, negotiation_expired, negotiation_cancelled, settlement_confirmed,
}
use ghost_bazaar.Engine.StateMachine.{is_valid_transition}

-- What `deriveState` throws: a bad first event, an invalid transition, a field that is missing or
-- of the wrong type, or a broken invariant.
pub data DeriveError : Type 0 where
  not_rfq_created invalid_transition invalid_field : DeriveError
  wrong_actor not_the_buyer no_recorded_offer : DeriveError
  offer_not_found not_the_offer_owner not_the_selected_seller : DeriveError

pub record RecordedOffer : Type 0 where
  pub offer_id : String
  pub seller : String
  pub price : String
  pub currency : String
  pub valid_until : String
  pub listing_id : String
  pub payment_endpoint : String
  pub extensions : Option Value

pub record RecordedCounter : Type 0 where
  pub counter_id : String
  pub round : ℕ
  pub from : String
  pub to : String
  pub price : String

pub record SessionRfq : Type 0 where
  pub buyer : String
  pub rfq_id : String
  pub anchor_price : String
  pub currency : String
  pub deadline : String
  pub service_type : String
  pub budget_commitment : Option String
  pub spec : Option Value

-- `null` is `none`.
pub record DerivedSession : Type 0 where
  pub state : SessionState
  pub rfq : SessionRfq
  pub offers : List RecordedOffer
  pub counters : List RecordedCounter
  pub selected_seller : Option String
  pub selected_offer_id : Option String
  pub quote_revision : ℕ
  pub total_offer_count : ℕ
  pub offer_count_by_seller : Dict ℕ
  pub total_accept_attempts : ℕ
  pub accept_attempts_by_seller : Dict ℕ
  pub last_event_id : String
  pub unsigned_quote : Option Value
  pub buyer_signature : Option String
  pub seller_signature : Option String
  pub commit_pending_at : Option String

abbrev pub Derived : Type 0 → Type 0
Derived A = Result DeriveError A

-- `str`, `num` and `optStr`
abbrev pub get_str : Payload → String → Derived String
get_str payload key = or_throw (as_string (get payload key)) invalid_field

abbrev pub as_num : Option Value → Option ℕ
as_num (some (num n)) = some n
as_num _ = none

abbrev pub get_num : Payload → String → Derived ℕ
get_num payload key = or_throw (as_num (get payload key)) invalid_field

abbrev pub opt_str : Payload → String → Option String
opt_str payload key = as_string (get payload key)

-- `m.get(k) ?? 0`
abbrev pub or_zero : Option ℕ → ℕ
or_zero none = 0
or_zero (some n) = n

-- `m.set(k, (m.get(k) ?? 0) + 1)`
abbrev pub bump : String → Dict ℕ → Dict ℕ
bump k m = insert k (suc (or_zero (lookup k m))) m

-- `a === b`, where `b` may be `null`
abbrev pub is_selected : String → Option String → Bool
is_selected s none = false
is_selected s (some t) = s === t

abbrev pub has_seller : String → RecordedOffer → Bool
has_seller seller o = o.seller === seller

abbrev pub has_offer_id : String → RecordedOffer → Bool
has_offer_id id o = o.offer_id === id

-- The rfq fields of the first event.
unfoldable pub read_rfq : Payload → Derived SessionRfq
read_rfq p = do
  buyer ← get_str p "buyer"
  rfq_id ← get_str p "rfq_id"
  anchor_price ← get_str p "anchor_price"
  currency ← get_str p "currency"
  deadline ← get_str p "deadline"
  service_type ← get_str p "service_type"
  ok (record {
    buyer = buyer;
    rfq_id = rfq_id;
    anchor_price = anchor_price;
    currency = currency;
    deadline = deadline;
    service_type = service_type;
    budget_commitment = opt_str p "budget_commitment";
    spec = as_object (get p "spec");
  })

-- The local variables of `deriveState` before its loop.
unfoldable pub initial : SessionRfq → String → DerivedSession
initial rfq event_id = record {
  state = open_state;
  rfq = rfq;
  offers = [];
  counters = [];
  selected_seller = none;
  selected_offer_id = none;
  quote_revision = 0;
  total_offer_count = 0;
  offer_count_by_seller = [];
  total_accept_attempts = 0;
  accept_attempts_by_seller = [];
  last_event_id = event_id;
  unsigned_quote = none;
  buyer_signature = none;
  seller_signature = none;
  commit_pending_at = none;
}

unfoldable pub read_offer : Payload → Derived RecordedOffer
read_offer p = do
  offer_id ← get_str p "offer_id"
  seller ← get_str p "seller"
  price ← get_str p "price"
  currency ← get_str p "currency"
  valid_until ← get_str p "valid_until"
  listing_id ← get_str p "listing_id"
  payment_endpoint ← get_str p "payment_endpoint"
  ok (record {
    offer_id = offer_id;
    seller = seller;
    price = price;
    currency = currency;
    valid_until = valid_until;
    listing_id = listing_id;
    payment_endpoint = payment_endpoint;
    extensions = as_object (get p "extensions");
  })

unfoldable pub read_counter : Payload → Derived RecordedCounter
read_counter p = do
  counter_id ← get_str p "counter_id"
  round ← get_num p "round"
  from ← get_str p "from"
  to ← get_str p "to"
  price ← get_str p "price"
  ok (record { counter_id = counter_id; round = round; from = from; to = to; price = price })

-- The cases of the `switch`, on the session whose state is already the next one.
unfoldable pub on_offer : NegotiationEvent → DerivedSession → Derived DerivedSession
on_offer e s = do
  offer ← read_offer e.payload
  require (e.actor === offer.seller) wrong_actor
  ok (record s {
    offers = s.offers ++ offer ∷ [];
    total_offer_count = suc s.total_offer_count;
    offer_count_by_seller = bump offer.seller s.offer_count_by_seller;
  })

unfoldable pub on_counter : NegotiationEvent → DerivedSession → Derived DerivedSession
on_counter e s = do
  counter ← read_counter e.payload
  require (e.actor === counter.from) wrong_actor
  require (counter.from === s.rfq.buyer) not_the_buyer
  require (any (has_seller counter.to) s.offers) no_recorded_offer
  ok (record s { counters = s.counters ++ counter ∷ [] })

-- `unsignedQuote` is only assigned where the payload holds an object.
abbrev pub or_else {ℓ} : {A : Type ℓ} → Option A → Option A → Option A
or_else none old = old
or_else (some a) old = some a

unfoldable pub on_winner : NegotiationEvent → DerivedSession → Derived DerivedSession
on_winner e s = do
  seller ← get_str e.payload "seller"
  offer_id ← get_str e.payload "offer_id"
  require (e.actor === s.rfq.buyer) not_the_buyer
  matching_offer ← or_throw (find (has_offer_id offer_id) s.offers) offer_not_found
  require (matching_offer.seller === seller) not_the_offer_owner
  ok (record s {
    selected_seller = some seller;
    selected_offer_id = some offer_id;
    quote_revision = suc s.quote_revision;
    total_accept_attempts = suc s.total_accept_attempts;
    accept_attempts_by_seller = bump seller s.accept_attempts_by_seller;
    unsigned_quote = or_else (as_object (get e.payload "quote")) s.unsigned_quote;
    commit_pending_at = some e.timestamp;
    buyer_signature = none;
    seller_signature = none;
  })

-- `COSIGN_DECLINED` checks the actor too, `COSIGN_TIMEOUT` does not.
unfoldable pub on_rollback : Bool → NegotiationEvent → DerivedSession → Derived DerivedSession
on_rollback actor_checked e s = do
  seller ← get_str e.payload "seller"
  require (is_selected seller s.selected_seller) not_the_selected_seller
  require (if actor_checked then is_selected e.actor s.selected_seller else true) wrong_actor
  ok (record s {
    selected_seller = none;
    selected_offer_id = none;
    unsigned_quote = none;
    buyer_signature = none;
    seller_signature = none;
    commit_pending_at = none;
  })

unfoldable pub on_quote_signed : NegotiationEvent → DerivedSession → Derived DerivedSession
on_quote_signed e s = do
  seller ← get_str e.payload "seller"
  require (is_selected seller s.selected_seller) not_the_selected_seller
  require (e.actor === s.rfq.buyer) not_the_buyer
  signature ← get_str e.payload "buyer_signature"
  ok (record s { buyer_signature = some signature })

unfoldable pub on_quote_committed : NegotiationEvent → DerivedSession → Derived DerivedSession
on_quote_committed e s = do
  seller ← get_str e.payload "seller"
  require (is_selected seller s.selected_seller) not_the_selected_seller
  require (is_selected e.actor s.selected_seller) wrong_actor
  signature ← get_str e.payload "seller_signature"
  ok (record s { seller_signature = some signature })

unfoldable pub handle : EventType → NegotiationEvent → DerivedSession → Derived DerivedSession
handle offer_submitted e s = on_offer e s
handle counter_sent e s = on_counter e s
handle winner_selected e s = on_winner e s
handle cosign_declined e s = on_rollback true e s
handle cosign_timeout e s = on_rollback false e s
handle quote_signed e s = on_quote_signed e s
handle quote_committed e s = on_quote_committed e s
handle _ e s = ok s

-- One round of the loop.
unfoldable pub apply_event : NegotiationEvent → DerivedSession → Derived DerivedSession
apply_event e s = do
  next_state ← or_throw (is_valid_transition s.state e.type) invalid_transition
  handle e.type e (record s { last_event_id = e.event_id; state = next_state })

unfoldable pub replay : DerivedSession → List NegotiationEvent → Derived DerivedSession
replay s [] = ok s
replay s (e ∷ es) = elim (apply_event e s) [ ok t ↦ replay t es | err x ↦ err x ]

abbrev pub is_rfq_created : EventType → Bool
is_rfq_created rfq_created = true
is_rfq_created _ = false

-- The session that the first event opens.
unfoldable pub open_session : NegotiationEvent → Derived DerivedSession
open_session first = do
  require (is_rfq_created first.type) not_rfq_created
  rfq ← read_rfq first.payload
  ok (initial rfq first.event_id)

-- `none` is the `null` of an empty log.
unfoldable pub derive_state : List NegotiationEvent → Derived (Option DerivedSession)
derive_state [] = ok none
derive_state (first ∷ rest) = do s ← open_session first; t ← replay s rest; ok (some t)
