-- ===== src/Examples/Stores.antt =====
-- A log of two events, read, followed and left.
use mathlib.Core.Option
use ghost_bazaar.Prelude.{
  ℕ, ◌≡◌, ◌≢◌, refl, ◌===◌, ◌==◌, arith, if◌then◌else◌, any, find, keep, All, List, [], ◌∷◌, ◌++◌,
  none, some, Result, ok, err,
}
use ghost_bazaar.Prelude.Dict.{lookup, insert, remove}
use ghost_bazaar.Prelude.Json.{get}
use ghost_bazaar.Engine.Types.{NegotiationEvent, negotiating}
use ghost_bazaar.Engine.Session.{
  derive_state, replay, open_session, read_rfq, initial, apply_event, handle, on_offer, read_offer,
}
use ghost_bazaar.Engine.StateMachine.{is_valid_transition, transition_rules}
use ghost_bazaar.Engine.Session.Invariant.{PhaseAt, IsCounted}
use ghost_bazaar.Engine.Session.Invariant.Tally.{IsTallied}
use ghost_bazaar.Engine.Session.Invariant.Phase.{derive_state-PhaseAt}
use ghost_bazaar.Engine.Session.Invariant.Counting.{derive_state-IsCounted}
use ghost_bazaar.Engine.Visibility.{is_event_visible_to}
use ghost_bazaar.Engine.EventStore.{
  EventStore, StoreError, visible, listen, from_cursor, Subscriber, live, Subscription, empty_store,
  append, store_event, notify, notify_subscribers, notify_terminal, get_events, has_cursor,
  get_all_events, subscribe_from, subscribe, unsubscribe, activate,
}
use ghost_bazaar.Engine.EventStore.Log.{get_events_resume}
use ghost_bazaar.Engine.EventStore.Linked.{watch, empty_store-IsLinked}
use ghost_bazaar.Engine.EventStore.Unique.{IsUnique, append-IsUnique, empty_store-IsUnique}
use ghost_bazaar.Engine.EventStore.Stream.{
  StreamStep, run_stream, stream_step, calls_of, waiting_for, subscribe_from_exact,
}
use ghost_bazaar.Engine.EventStore.Unsubscribe.{unsubscribe_once, stale_unsubscribe_drops_others}
use ghost_bazaar.Engine.Routes.Rfqs.{rfq_event}
use ghost_bazaar.Engine.Routes.Offers.{offer_event}
use ghost_bazaar.Examples.World.{
  rfq_id, buyer, seller, moment, rfq_body, offer_body, listing, session_offered,
}

abbrev empty : EventStore
empty = record {
  events = [];
  seen_event_ids = [];
  subscribers = [];
  sets = λ r. [];
  next_set = 0;
  next_id = 0;
  terminal_subscribers = [];
  terminal_sets = λ r. [];
  next_terminal_set = 0;
  terminal_calls = [];
}

abbrev pub rfq_sent : NegotiationEvent
rfq_sent = rfq_event rfq_body (moment "e0")

abbrev pub offer_sent : NegotiationEvent
offer_sent = offer_event rfq_id offer_body listing (moment "e1")

pub log_derives : derive_state (rfq_sent ∷ offer_sent ∷ []) ≡ ok (some session_offered)
unfolding derive_state replay open_session read_rfq initial apply_event handle on_offer read_offer
    is_valid_transition transition_rules get lookup insert ◌===◌
log_derives = refl

derive_state-PhaseAt_example : PhaseAt negotiating session_offered
derive_state-PhaseAt_example =
    derive_state-PhaseAt (rfq_sent ∷ offer_sent ∷ []) session_offered log_derives

derive_state-IsCounted_example :
    IsTallied (rfq_sent ∷ offer_sent ∷ []) session_offered × IsCounted session_offered
derive_state-IsCounted_example =
    derive_state-IsCounted (rfq_sent ∷ offer_sent ∷ []) session_offered log_derives

abbrev store_opened : EventStore
store_opened = record empty { events = (rfq_id, rfq_sent ∷ []) ∷ []; seen_event_ids = "e0" ∷ [] }

abbrev store_offered : EventStore
store_offered = record empty {
  events = (rfq_id, rfq_sent ∷ offer_sent ∷ []) ∷ [];
  seen_event_ids = "e1" ∷ "e0" ∷ [];
}

rfq_stored : append rfq_id rfq_sent empty_store ≡ ok store_opened
unfolding append store_event notify_subscribers notify_terminal empty_store any get lookup insert
    ◌===◌
rfq_stored = refl

offer_stored : append rfq_id offer_sent store_opened ≡ ok store_offered
unfolding append store_event notify_subscribers notify_terminal any get lookup insert ◌===◌
offer_stored = refl

append-IsUnique_example : IsUnique store_offered
append-IsUnique_example =
    append-IsUnique rfq_id offer_sent store_opened store_offered offer_stored
      (append-IsUnique rfq_id rfq_sent empty_store store_opened rfq_stored empty_store-IsUnique)

get_events_resume_example :
    (before rest : List NegotiationEvent) × (c : NegotiationEvent) × (c.event_id ≡ "e0")
    × All (λ e. e.event_id ≢ "e0") before
    × (rfq_sent ∷ offer_sent ∷ [] ≡ before ++ c ∷ rest)
    × (get_events rfq_id seller buyer (some "e0") store_offered ≡ visible seller buyer rest)
    × (get_events rfq_id seller buyer none store_offered
        ≡ visible seller buyer (before ++ c ∷ [])
          ++ get_events rfq_id seller buyer (some "e0") store_offered)
unfolding has_cursor get_all_events any lookup ◌===◌
get_events_resume_example = get_events_resume rfq_id "e0" seller buyer store_offered refl

abbrev steps : List StreamStep
steps =
    StreamStep.appends rfq_id rfq_sent
    ∷ StreamStep.activates
    ∷ StreamStep.appends rfq_id offer_sent
    ∷ []

abbrev follower : Subscription
follower = record { rfq = rfq_id; handle = (0, 0); replay = []; buffered = [] }

abbrev followed : EventStore
followed = (subscribe_from rfq_id buyer buyer none empty_store).1

abbrev end_of : Result StoreError EventStore → EventStore
end_of (ok st) = st
end_of (err e) = empty_store

abbrev streamed : EventStore
streamed = end_of (run_stream follower steps followed)

subscribe_from_exact_example :
    ((follower.replay ++ follower.buffered)
        ++ (calls_of follower streamed ++ waiting_for follower streamed)
      ≡ get_events rfq_id buyer buyer none streamed)
    × ((follower.replay ++ follower.buffered) ++ calls_of follower (activate follower streamed)
        ≡ get_events rfq_id buyer buyer none streamed)
unfolding run_stream stream_step subscribe_from subscribe activate append store_event notify
    notify_subscribers notify_terminal listen is_event_visible_to get_events from_cursor empty_store
    any find keep get lookup insert ◌===◌
subscribe_from_exact_example =
    subscribe_from_exact rfq_id buyer buyer none empty_store followed streamed follower steps
      empty_store-IsLinked tt refl refl

abbrev subscriber : ℕ → Subscriber
subscriber id = record {
  id = id;
  caller_did = buyer;
  buyer = buyer;
  mode = live;
  buffer = [];
  delivered = [];
}

abbrev two_subscribers : EventStore
two_subscribers = record empty {
  subscribers = (rfq_id, 0) ∷ [];
  sets = λ r. if r == 0 then subscriber 0 ∷ subscriber 1 ∷ [] else [];
  next_set = 1;
  next_id = 2;
}

abbrev one_left : EventStore
one_left = end_of (append rfq_id rfq_sent (unsubscribe rfq_id (0, 0) two_subscribers))

unsubscribe_once_example :
    (watch (0, 0) one_left ≡ none)
    × ((other : ℕ)
        → other ≢ 0
        → watch (0, other) one_left
          ≡ Option.map (notify rfq_sent) (watch (0, other) two_subscribers))
unfolding unsubscribe append store_event notify_subscribers notify_terminal any find keep get lookup
    insert remove ◌===◌
unsubscribe_once_example = unsubscribe_once rfq_id 0 0 rfq_sent two_subscribers one_left refl refl

-- The first set of the session was emptied, and a new subscriber came.
abbrev returned : EventStore
returned = record empty {
  subscribers = (rfq_id, 1) ∷ [];
  sets = λ r. if r == 1 then subscriber 1 ∷ [] else [];
  next_set = 2;
  next_id = 2;
}

abbrev unsubscribed : EventStore
unsubscribed = unsubscribe rfq_id (0, 0) returned

stale_unsubscribe_drops_others_example :
    (lookup rfq_id unsubscribed.subscribers ≡ none)
    × ((end_of (append rfq_id rfq_sent unsubscribed)).sets 1 ≡ subscriber 1 ∷ [])
unfolding unsubscribe append store_event notify_subscribers notify_terminal any find keep get lookup
    insert remove ◌===◌
stale_unsubscribe_drops_others_example =
    stale_unsubscribe_drops_others rfq_id 0 0 1 rfq_sent returned
      (end_of (append rfq_id rfq_sent unsubscribed)) refl refl (λ p. omega arith) refl
